-- ===== src/Tak/Sink.antt =====
-- meshcore_rpc_services/tak/takserver.py: `TakSink`. The socket is asyncio's: how each wait for it
-- ends is an argument.
pub mod Recent
pub mod Backoff
pub mod Serving
use meshcore_rpc_services.Prelude.{
  ℕ, zero, suc, ◌-◌, Bool, true, false, Option, none, some, List, [], ◌∷◌, ◌++◌, length, ltb, leb,
  if◌then◌else◌,
}
use meshcore_rpc_services.Prelude.Int.{ℤ, pos, Fixed, of_int}
use meshcore_rpc_services.Runtime.{Exn, crash}

abbrev pub queue_cap : ℕ
queue_cap = 256

-- `asyncio.Queue` with a bound; `none` stands for `QueueFull` and `QueueEmpty`.
module _ {A : Type 0} (cap : ℕ) where
  abbrev pub put_nowait : A → List A → Option (List A)
  put_nowait x q = if ltb (length q) cap then some (q ++ x ∷ []) else none

  -- `put_nowait` where a full queue is logged or passed over.
  abbrev pub put_or_drop : A → List A → List A
  put_or_drop x q = elim (put_nowait x q) [ none ↦ q | some q' ↦ q' ]

  abbrev without_oldest : List A → List A
  without_oldest [] = []
  without_oldest (x ∷ q) = q

  abbrev retried : A → List A → Option (List A) → List A
  retried x q none = put_or_drop x (without_oldest q)
  retried x q (some q') = q'

  -- `send`
  unfoldable pub send : A → List A → List A
  send x q = retried x q (put_nowait x q)

  unfoldable pub send_all : List A → List A → List A
  unfolding send
  send_all [] q = q
  send_all (x ∷ xs) q = send_all xs (send x q)

-- What `TakSink` keeps, and what it has written to the sockets.
pub record TakSink (A : Type 0) : Type 0 where
  pub queue : List A
  pub was_connected : Bool
  pub written : List A

-- How `writer.drain()` ends: it returns, or raises one of the two errors that are caught, or another.
pub data Drain : Type 0 where
  drained broken failed : Drain

-- What happens while a session runs: the loop takes a turn, in whose wait other tasks send some
-- events; another task sends an event; or `stop` is called.
pub data Input (A : Type 0) : Type 0 where
  turn : List A → Drain → Input A
  sent : A → Input A
  stop : Input A

-- How a session ends: `stop` was seen, or an exception.
pub data End : Type 0 where
  clean dropped : End

module _ {A : Type 0} where
  -- `on_reconnect`, as what it does to the queue: that is also what was sent before it raised.
  abbrev reconnected : Option (List A → List A) → List A
  reconnected none = []
  reconnected (some on_reconnect) = on_reconnect []

  -- The start of `_session`, once the connection is open.
  unfoldable pub begin_session : Option (List A → List A) → TakSink A → TakSink A
  begin_session on_reconnect s = record s {
    queue = if s.was_connected then reconnected on_reconnect else s.queue;
    was_connected = true;
  }

  abbrev write : A → List A → TakSink A → TakSink A
  write cot rest s = record s { queue = rest; written = s.written ++ cot ∷ [] }

  abbrev requeue : A → TakSink A → TakSink A
  requeue cot s = record s { queue = put_or_drop queue_cap cot s.queue }

  -- What follows `writer.write`: the sink, and whether the session is over.
  abbrev after_write : A → TakSink A → Drain → TakSink A × Option End
  after_write cot s drained = (s, none)
  after_write cot s broken = (requeue cot s, some dropped)
  after_write cot s failed = (s, some dropped)

  abbrev receive : List A → TakSink A → TakSink A
  receive xs s = record s { queue = send_all queue_cap xs s.queue }

  -- The wait is that for an event, or that for `writer.drain()`.
  abbrev take_turn : List A → List A → TakSink A → Drain → TakSink A × Option End
  take_turn [] xs s d = (receive xs s, none)
  take_turn (cot ∷ rest) xs s d = after_write cot (receive xs (write cot rest s)) d

  abbrev on_input : TakSink A → Input A → TakSink A × Option End
  on_input s (turn xs d) = take_turn s.queue xs s d
  on_input s (sent x) = (record s { queue = send queue_cap x s.queue }, none)
  on_input s stop = (s, some clean)

  -- The loop of `_session`, over what happens; `none` where the session still runs.
  unfoldable pub serve : List (Input A) → TakSink A → TakSink A × Option End
  serve [] s = (s, none)
  serve (i ∷ inputs) s =
      let (s', ended) = on_input s i in
      elim ended [ none ↦ serve inputs s' | some e ↦ (s', some e) ]

-- `_RECONNECT_DELAYS`, which gpsd.py has too.
abbrev pub reconnect_delays : List Fixed
reconnect_delays = pos 1000000 ∷ pos 2000000 ∷ pos 5000000 ∷ pos 10000000 ∷ pos 30000000 ∷ []

-- `_RECONNECT_DELAYS[min(attempt, len(_RECONNECT_DELAYS) - 1)]`: the last one from there on.
abbrev nth_or_last : Fixed → List Fixed → ℕ → Fixed
nth_or_last last [] n = last
nth_or_last last (d ∷ ds) zero = d
nth_or_last last (d ∷ ds) (suc n) = nth_or_last d ds n

unfoldable pub delay_of : ℕ → Fixed
delay_of attempt = nth_or_last (pos 0) reconnect_delays attempt

-- A round of `_run`: how the session ends, whether `stop` was called by then, and whether it is called
-- during the wait.
pub record Round : Type 0 where
  pub ended : End
  pub stopped : Bool
  pub stopped_waiting : Bool

abbrev next_attempt : ℕ → End → ℕ
next_attempt attempt clean = 0
next_attempt attempt dropped = attempt

-- The loop of `_run`: the delays that it waits.
unfoldable pub run : List Round → ℕ → List Fixed
unfolding delay_of
run [] attempt = []
run (r ∷ rounds) attempt =
    let now = next_attempt attempt r.ended in
    let rest = run rounds (suc now) in
    if r.stopped then [] else delay_of now ∷ (if r.stopped_waiting then [] else rest)
