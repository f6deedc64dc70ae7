-- ===== src/Runtime/Keeps.antt =====
-- Invariants of actions, one rule for each way to build an action.
use meshcore_rpc_services.Prelude.{
  ◌≡◌, refl, Bool, true, false, Option, none, some, List, [], ◌∷◌, if◌then◌else◌,
}
use meshcore_rpc_services.Prelude.Int.{Fixed}
use meshcore_rpc_services.Runtime.{
  Exn, Result, ok, err, Outcome, done, late, fault, World, M, pure, raise, or_raise, gets, attempt,
  finally, modify, ◌>>=◌, continue, after, step, perform, time,
}

-- `m` keeps `P`, whether it returns or raises.
pub record Keeps {A : Type 0} (P : World → Type 0) (m : M A) : Type 0 where
  pub at : (w : World) → P w → P (m w).1

module _ {P : World → Type 0} where
  pub Keeps-pure : {A : Type 0} (a : A) → Keeps P (pure a)
  unfolding pure
  Keeps-pure a = record { at = λ w h. h }

  pub Keeps-raise : {A : Type 0} (e : Exn) → Keeps P (raise {A = A} e)
  unfolding raise
  Keeps-raise e = record { at = λ w h. h }

  pub Keeps-gets : {A : Type 0} (f : World → A) → Keeps P (gets f)
  unfolding gets
  Keeps-gets f = record { at = λ w h. h }

  pub Keeps-or_raise : {A : Type 0} (o : Option A) (e : Exn) → Keeps P (or_raise o e)
  unfolding or_raise
  Keeps-or_raise none e = Keeps-raise e
  Keeps-or_raise (some a) e = Keeps-pure a

  pub Keeps-time : Keeps P time
  unfolding time
  Keeps-time = record { at = λ w h. h }

  pub Keeps-modify : (f : World → World) → ((w : World) → P w → P (f w)) → Keeps P (modify f)
  unfolding modify
  Keeps-modify f k = record { at = k }

  pub Keeps-attempt : {A : Type 0} (m : M A) → Keeps P m → Keeps P (attempt m)
  unfolding attempt
  Keeps-attempt m k = record { at = k.at }

  pub Keeps-if :
      {A : Type 0} (b : Bool) (m n : M A) → Keeps P m → Keeps P n → Keeps P (if b then m else n)
  Keeps-if true m n km kn = km
  Keeps-if false m n km kn = kn

  Keeps-continue :
      {A B : Type 0} (r : Result A) (f : A → M B)
      → ((a : A) → Keeps P (f a))
      → (w : World) → P w
      → P (continue r f w).1
  Keeps-continue (ok a) f k w h = (k a).at w h
  Keeps-continue (err e) f k w h = h

  pub Keeps-bind :
      {A B : Type 0} (m : M A) (f : A → M B)
      → Keeps P m
      → ((a : A) → Keeps P (f a))
      → Keeps P (m >>= f)
  unfolding ◌>>=◌
  Keeps-bind m f km kf = record {
    at = λ w h. let (r, w') = m w in Keeps-continue r f kf w' (km.at w h);
  }

  -- An awaited call may let time pass, and may or may not be performed.
  pub Keeps-perform :
      {A : Type 0} (call : World → A × World)
      → ((w : World) (t : Fixed) (o : Outcome) (rest : List Outcome)
          → w.script ≡ o ∷ rest
          → P w
          → P (after t rest w))
      → ((w : World) → P w → P (call w).1)
      → Keeps P (perform call)
  unfolding perform
  Keeps-perform call tick k = record { at = λ w h. go w.script w refl h }
    where
      go : (s : List Outcome) (w : World) → w.script ≡ s → P w → P (step s call w).1
      go [] w e h = k w h
      go (done t ∷ rest) w e h = k _ (tick w t (done t) rest e h)
      go (late t ∷ rest) w e h = k _ (tick w t (late t) rest e h)
      go (fault t name ∷ rest) w e h = tick w t (fault t name) rest e h

  pub Keeps-finally :
      {A : Type 0} (m : M A) (f : World → World)
      → Keeps P m
      → ((w : World) → P w → P (f w))
      → Keeps P (finally m f)
  unfolding finally
  Keeps-finally m f km kf = record { at = λ w h. kf (m w).1 (km.at w h) }

pub ruleset keeps_rules = (
  Keeps-pure, Keeps-raise, Keeps-gets, Keeps-time, Keeps-or_raise, Keeps-attempt, Keeps-if,
  Keeps-bind,
)
