-- ===== src/Tracker/Rules.antt =====
-- Rules for `run_with_timeout`.
use meshcore_rpc_services.Prelude.{
  ℕ, suc, ◌+◌, ◌≡◌, refl, Bool, true, false, arith, Bool-cases, inl, inr,
}
use meshcore_rpc_services.Prelude.Int.{ℤ, pos, leb_ℤ}
use meshcore_rpc_services.Runtime.{World, M, modify, ◌>>=◌, finally, raise, timeout_error}
use meshcore_rpc_services.Runtime.Keeps.{
  Keeps, Keeps-modify, Keeps-finally, Keeps-if, Keeps-raise, Keeps-bind,
}
use meshcore_rpc_services.Tracker.{run_with_timeout}

-- The tracker's own state.
abbrev pub Tracks : ℕ → Bool → World → Type 0
Tracks n b w = (w.in_flight ≡ n) × (w.armed ≡ b)

module _ {A : Type 0} {P : World → Type 0} (m : M A) (ttl : ℤ) (keep : Keeps P m)
    (counter : (w : World) (n : ℕ) → P w → P (record w { in_flight = n }))
    (deadline : (w : World) (b : Bool) → P w → P (record w { armed = b })) where
  -- What does not depend on the tracker's state is kept by a guarded action that keeps it.
  pub Keeps-run_with_timeout : Keeps P (run_with_timeout m ttl)
  unfolding run_with_timeout
  Keeps-run_with_timeout = Keeps-bind _ _ (Keeps-modify _ (λ w h. counter w _ h)) (λ _.
      Keeps-finally _ _
        (Keeps-if _ _ _ (Keeps-raise timeout_error) (
          Keeps-finally _ _ (Keeps-bind _ _ (Keeps-modify _ (λ w h. deadline w true h)) (λ _. keep))
            (λ w h. deadline w false h)))
        (λ w h. counter w _ h))

-- A guarded action leaves the number of running handlers as it was, and no deadline running,
-- however it ends.
pub run_with_timeout-Tracks :
    {A : Type 0} (m : M A) (ttl : ℤ) (n : ℕ)
    → Keeps (Tracks (suc n) true) m
    → Keeps (Tracks n false) (run_with_timeout m ttl)
unfolding run_with_timeout finally ◌>>=◌ modify raise
run_with_timeout-Tracks m ttl n keep = record {
  at = λ w h. elim (Bool-cases (leb_ℤ ttl (pos 0))) [
    | inl no_time ↦ rw no_time (omega (arith, h.0), h.1)
    | inr time_left ↦
        let (flying, _) =
          keep.at (record w { in_flight = w.in_flight + 1; armed = true })
            (omega (arith, h.0), refl) in
        rw time_left (omega (arith, flying), refl)
  ];
}
