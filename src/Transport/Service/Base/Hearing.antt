-- ===== src/Transport/Service/Base/Hearing.antt =====
-- What a client of the GPS daemon hears, told from what its sessions read: the fixes that it hands to its
-- callback, with the time of each, and the delays between the sessions.
use meshcore_rpc_services.Prelude.{
  ℕ, Bool, true, false, Option, none, some, List, [], ◌∷◌, ◌++◌, if◌then◌else◌,
}
use meshcore_rpc_services.Prelude.Int.{Fixed, ◌+ℤ◌}
use meshcore_rpc_services.Gpsd.{GpsdFix, usable}
use meshcore_rpc_services.Gpsd.Session.{
  Read, line, closed, broken, stop, cancel, End, clean, dropped, cancelled, Connection, Round,
  delay_after, next_attempt,
}
use meshcore_rpc_services.Transport.Adapter.{Codec}

-- What follows a wait, unless there is none, or `stop` is called in it.
abbrev pub after_wait : {A : Type 0} → A → (Fixed → A) → Bool → Option Fixed → A
after_wait over go stopped none = over
after_wait over go true (some delay) = over
after_wait over go false (some delay) = go delay

abbrev pub delays_then : Bool → Option Fixed → List Fixed → List Fixed
delays_then stopped none rest = []
delays_then true (some delay) rest = delay ∷ []
delays_then false (some delay) rest = delay ∷ rest

-- The time at which the loop of a session ends, and how.
abbrev pub time_after : Fixed → List Read → Fixed
time_after now (line t text ∷ reads) = time_after (now +ℤ t) reads
time_after now (closed t ∷ reads) = now +ℤ t
time_after now (broken t ∷ reads) = now +ℤ t
time_after now _ = now

abbrev pub end_of : List Read → Option End
end_of [] = none
end_of (line t text ∷ reads) = end_of reads
end_of (closed t ∷ reads) = some dropped
end_of (broken t ∷ reads) = some dropped
end_of (stop ∷ reads) = some clean
end_of (cancel ∷ reads) = some cancelled

-- The same for a whole session.
abbrev pub time_in : Fixed → Connection → Fixed
time_in now conn =
    if conn.is_open then time_after (now +ℤ conn.setup) conn.reads else now +ℤ conn.setup

abbrev pub end_in : Connection → Option End
end_in conn = if conn.is_open then end_of conn.reads else some dropped

abbrev pub time_over : ℕ → Fixed → List Round → Fixed
time_over attempt now [] = now
time_over attempt now (r ∷ rounds) =
    let ended = end_in r.connection in
    after_wait (time_in now r.connection)
      (λ delay. time_over (next_attempt attempt ended) (time_in now r.connection +ℤ delay) rounds)
      r.stopped_waiting (delay_after attempt r ended)

-- The delays that are waited.
abbrev pub delays_over : ℕ → List Round → List Fixed
delays_over attempt [] = []
delays_over attempt (r ∷ rounds) =
    let ended = end_in r.connection in
    delays_then r.stopped_waiting (delay_after attempt r ended)
      (delays_over (next_attempt attempt ended) rounds)

abbrev pub handed : Fixed → Option GpsdFix → List (Fixed × GpsdFix)
handed now none = []
handed now (some fix) = (now, fix) ∷ []

module _ (c : Codec) (max_acc_m : Option Fixed) where
  -- The fixes that a session's loop hands to `on_fix`, with the time of each.
  abbrev pub heard : Fixed → List Read → List (Fixed × GpsdFix)
  heard now (line t text ∷ reads) =
      handed (now +ℤ t) (usable max_acc_m (c.loads text) (now +ℤ t)) ++ heard (now +ℤ t) reads
  heard now _ = []

  -- In a session, and in all of them.
  abbrev pub heard_in : Fixed → Connection → List (Fixed × GpsdFix)
  heard_in now conn = if conn.is_open then heard (now +ℤ conn.setup) conn.reads else []

  abbrev pub heard_over : ℕ → Fixed → List Round → List (Fixed × GpsdFix)
  heard_over attempt now [] = []
  heard_over attempt now (r ∷ rounds) =
      let ended = end_in r.connection in
      heard_in now r.connection
      ++ after_wait []
          (λ delay.
            heard_over (next_attempt attempt ended) (time_in now r.connection +ℤ delay) rounds)
          r.stopped_waiting (delay_after attempt r ended)
