-- ===== src/Runtime/Runs.antt =====
-- Actions that return from some states, and what holds then.
use meshcore_rpc_services.Prelude.{
  ◌≡◌, refl, sym, ap, subst, ◌∷◌, Bool, true, false, List, [], if◌then◌else◌,
}
use meshcore_rpc_services.Runtime.{
  Outcome, Result, ok, err, World, M, pure, gets, modify, time, ◌>>=◌, continue, step, perform,
}

-- From every state with `P` the action returns, and leaves a state with `Q`.
pub record Runs {A : Type 0} (P Q : World → Type 0) (m : M A) : Type 0 where
  pub at : (w : World) → P w → ((a : A) × ((m w).0 ≡ ok a)) × Q (m w).1

module _ {Q R : World → Type 0} where
  continue-Runs :
      {A B : Type 0} (r : Result A) (f : A → M B) (w : World) (a : A)
      → r ≡ ok a
      → ((x : A) → Runs R Q (f x))
      → R w
      → ((b : B) × ((continue r f w).0 ≡ ok b)) × Q (continue r f w).1
  continue-Runs (ok x) f w a e k h = (k x).at w h
  continue-Runs (err x) f w a e k h = absurd cc

  pub Runs-bind :
      {P : World → Type 0} {A B : Type 0} (m : M A) (f : A → M B)
      → Runs P R m
      → ((a : A) → Runs R Q (f a))
      → Runs P Q (m >>= f)
  unfolding ◌>>=◌
  Runs-bind m f first k = record {
    at = λ w h. let ((a, e), h') = first.at w h in continue-Runs (m w).0 f (m w).1 a e k h';
  }

module _ {P : World → Type 0} where
  pub Runs-pure : {A : Type 0} (a : A) → Runs P P (pure a)
  unfolding pure
  Runs-pure a = record { at = λ w h. ((a, refl), h) }

  pub Runs-gets : {A : Type 0} (f : World → A) → Runs P P (gets f)
  unfolding gets
  Runs-gets f = record { at = λ w h. ((f w, refl), h) }

  pub Runs-time : Runs P P time
  unfolding time
  Runs-time = record { at = λ w h. ((w.clock, refl), h) }

  pub Runs-modify : (f : World → World) → ((w : World) → P w → P (f w)) → Runs P P (modify f)
  unfolding modify
  Runs-modify f k = record { at = λ w h. ((tt, refl), k w h) }

  pub Runs-if :
      {A : Type 0} (b : Bool) (m n : M A) → Runs P P m → Runs P P n → Runs P P (if b then m else n)
  Runs-if true m n hm hn = hm
  Runs-if false m n hm hn = hn

pub stepped :
    {A : Type 0} (call : World → A × World) (s : List Outcome) (w : World)
    → s ≡ []
    → step s call w ≡ (ok (call w).0, (call w).1)
unfolding step
stepped call [] w e = refl
stepped call (o ∷ rest) w e = absurd cc

-- With no outcome left, an awaited call is performed at once.
pub Runs-perform :
    {A : Type 0} {P Q : World → Type 0} (call : World → A × World)
    → ((w : World) → P w → w.script ≡ [])
    → ((w : World) → P w → Q (call w).1)
    → Runs P Q (perform call)
unfolding perform
Runs-perform {A} {P} {Q} call idle k = record {
  at = λ w h.
      let e = stepped call w.script w (idle w h) in
      (
        ((call w).0, ap (λ (r : Result A × World). r.0) e),
        subst (λ (r : Result A × World). Q r.1) (sym e) (k w h),
      );
}
