-- ===== src/Gpsd/Session.antt =====
-- meshcore_rpc_services/gpsd.py: a session with the GPS daemon, and the loop over sessions. The
-- socket is asyncio's: what its waits give, and how long they take, are arguments. `on_fix` is a
-- callback with variables `S`, as the service's closure is.
use meshcore_rpc_services.Prelude.{
  ℕ, suc, Bool, true, false, Option, none, some, List, [], ◌∷◌, String, if◌then◌else◌,
}
use meshcore_rpc_services.Prelude.Int.{Fixed}
use meshcore_rpc_services.Gpsd.{GpsdFix, usable}
use meshcore_rpc_services.Runtime.{
  Result, ok, err, M, pure, attempt, modify, pass, time, ◌>>=◌, ◌>>◌,
}
use meshcore_rpc_services.Tak.Sink.{delay_of}
use meshcore_rpc_services.Transport.Adapter.{Codec}

-- What comes of a turn of the loop: `stop` is seen, `readline` gives a line or the end of the
-- stream, or it raises, or the task is cancelled in it.
pub data Read : Type 0 where
  line : Fixed → String → Read
  closed broken : Fixed → Read
  stop cancel : Read

-- How a session ends: `stop` was seen, an exception, or `CancelledError`.
pub data End : Type 0 where
  clean dropped cancelled : End

-- A connection: the time until the daemon is asked to report, whether connecting, reading the banner
-- (a timeout there is passed over) and asking went through, and what the loop reads then.
pub record Connection : Type 0 where
  pub setup : Fixed
  pub is_open : Bool
  pub reads : List Read

-- A round of `_run`: a connection, whether `stop` was called by its end, and whether it is called
-- during the wait.
pub record Round : Type 0 where
  pub connection : Connection
  pub stopped : Bool
  pub stopped_waiting : Bool

abbrev pub attempt_after : ℕ → End → ℕ
attempt_after attempt clean = 0
attempt_after attempt _ = attempt

-- The delay that is waited after a session, none where `_run` returns instead.
abbrev pub delay_after : ℕ → Round → Option End → Option Fixed
delay_after attempt r none = none
delay_after attempt r (some cancelled) = none
delay_after attempt r (some e) =
    if r.stopped then none else some (delay_of (attempt_after attempt e))

abbrev pub next_attempt : ℕ → Option End → ℕ
next_attempt attempt none = attempt
next_attempt attempt (some e) = suc (attempt_after attempt e)

module _ {S : Type 0} where
  abbrev pub kept : S → Result S → S
  kept st (ok st') = st'
  kept st (err e) = st

  -- An exception of the callback is logged, and its variables stay as they were.
  abbrev pub hand_on : (S → GpsdFix → M S) → S → Option GpsdFix → M S
  hand_on on_fix st none = pure st
  hand_on on_fix st (some fix) = do r ← attempt (on_fix st fix); pure (kept st r)

  abbrev pub wait_then : S → Bool → Option Fixed → M (S × List Fixed) → M (S × List Fixed)
  wait_then st stopped_waiting none rest = pure (st, [])
  wait_then st true (some delay) rest = pure (st, delay ∷ [])
  wait_then st false (some delay) rest = do
    modify (pass delay)
    (st', delays) ← rest
    pure (st', delay ∷ delays)

module _ {S : Type 0} (c : Codec) (max_acc_m : Option Fixed) (on_fix : S → GpsdFix → M S) where
  -- The loop of `_session`; `none` where it still runs.
  unfoldable pub listen : List Read → S → M (S × Option End)
  listen [] st = pure (st, none)
  listen (line t text ∷ reads) st = do
    modify (pass t)
    now ← time
    st' ← hand_on on_fix st (usable max_acc_m (c.loads text) now)
    listen reads st'
  listen (closed t ∷ reads) st = modify (pass t) >> pure (st, some dropped)
  listen (broken t ∷ reads) st = modify (pass t) >> pure (st, some dropped)
  listen (stop ∷ reads) st = pure (st, some clean)
  listen (cancel ∷ reads) st = pure (st, some cancelled)

  -- `_session`
  unfoldable pub session : Connection → S → M (S × Option End)
  session conn st = do
    modify (pass conn.setup)
    if conn.is_open then listen conn.reads st else pure (st, some dropped)

  -- The loop of `_run`, and the delays that it waits.
  unfoldable pub run : List Round → ℕ → S → M (S × List Fixed)
  unfolding session
  run [] attempt st = pure (st, [])
  run (r ∷ rounds) attempt st = do
    (st', ended) ← session r.connection st
    wait_then st' r.stopped_waiting (delay_after attempt r ended)
        (run rounds (next_attempt attempt ended) st')
