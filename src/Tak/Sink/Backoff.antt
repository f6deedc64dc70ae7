-- ===== src/Tak/Sink/Backoff.antt =====
-- The waits between sessions.
use meshcore_rpc_services.Prelude.{
  ℕ, zero, suc, ◌≡◌, refl, List, [], ◌∷◌, Bool, true, false, length, arith, All, not, ◌&&◌,
}
use meshcore_rpc_services.Prelude.Int.{Fixed}
use meshcore_rpc_services.Tak.Sink.{Round, End, clean, dropped, run, delay_of}

abbrev is_dropped : End → Bool
is_dropped dropped = true
is_dropped clean = false

-- `stop` is not called, and so no session ends but by an exception.
abbrev pub is_lost : Round → Bool
is_lost r = is_dropped r.ended && not r.stopped && not r.stopped_waiting

abbrev pub delays_from : ℕ → ℕ → List Fixed
delays_from attempt zero = []
delays_from attempt (suc n) = delay_of attempt ∷ delays_from (suc attempt) n

-- While `stop` is not called and each session ends by an exception, there is one wait after each
-- session, and its length depends only on the number of sessions so far, however long they lasted.
pub run-delays_from :
    (rounds : List Round) (attempt : ℕ)
    → All (λ r. is_lost r ≡ true) rounds
    → run rounds attempt ≡ delays_from attempt (length rounds)
unfolding run
run-delays_from [] attempt h = refl
run-delays_from (r ∷ rounds) attempt h =
    ground (arith, h.0, run-delays_from rounds (suc attempt) h.1)
