-- ===== src/Runtime/Total.antt =====
-- Postconditions of actions that return, and actions that always return.
use meshcore_rpc_services.Prelude.{◌≡◌, refl, subst, String, Bool, true, false, List, [], ◌∷◌, All}
use meshcore_rpc_services.Prelude.Int.{Fixed}
use meshcore_rpc_services.Runtime.{
  Result, ok, err, Outcome, done, late, fault, World, M, pure, attempt, ◌>>=◌, continue, after,
  interrupt, step, perform, time,
}
use meshcore_rpc_services.Runtime.Keeps.{Keeps}

-- If `m` returns, the state satisfies `Q`.
pub record Ensures {A : Type 0} (Q : World → Type 0) (m : M A) : Type 0 where
  pub at : (w : World) (a : A) → (m w).0 ≡ ok a → Q (m w).1

module _ {Q : World → Type 0} where
  continue-ensures :
      {A B : Type 0} (r : Result A) (f : A → M B)
      → ((a : A) → Ensures Q (f a))
      → (w : World) (b : B) → (continue r f w).0 ≡ ok b
      → Q (continue r f w).1
  continue-ensures (ok a) f k w b e = (k a).at w b e
  continue-ensures (err x) f k w b e = cc

  -- The last action decides.
  pub Ensures-bind :
      {A B : Type 0} (m : M A) (f : A → M B) → ((a : A) → Ensures Q (f a)) → Ensures Q (m >>= f)
  unfolding ◌>>=◌
  Ensures-bind m f k = record { at = λ w b e. let (r, w') = m w in continue-ensures r f k w' b e }

  pub Ensures-perform :
      {A : Type 0} (call : World → A × World)
      → ((w : World) → Q (call w).1)
      → Ensures Q (perform call)
  unfolding perform
  Ensures-perform call k = record { at = λ w a e. go w.script w a e }
    where
      go : (s : List Outcome) (w : World) (a : _) → (step s call w).0 ≡ ok a → Q (step s call w).1
      go [] w a e = k w
      go (done t ∷ rest) w a e = k _
      go (late t ∷ rest) w a e = k _
      go (fault t name ∷ rest) w a e = cc

-- No awaited call fails.
abbrev pub is_quiet : Outcome → Bool
is_quiet (fault t name) = false
is_quiet _ = true

-- Only a running deadline can interrupt.
abbrev pub Quiet : Bool → World → Type 0
Quiet b w = All (λ o. is_quiet o ≡ true) w.script × (w.armed ≡ b)

abbrev pub Returns : {A : Type 0} → Result A → Type 0
Returns (ok a) = Unit
Returns (err e) = ⊥

-- With no failing call and no deadline running `m` returns, and so it is afterwards.
pub record Total {A : Type 0} (m : M A) : Type 0 where
  pub at : (w : World) → Quiet false w → Returns (m w).0 × Quiet false (m w).1

pub Total-pure : {A : Type 0} (a : A) → Total (pure a)
unfolding pure
Total-pure a = record { at = λ w h. (tt, h) }

pub Total-time : Total time
unfolding time
Total-time = record { at = λ w h. (tt, h) }

-- What raises is caught.
pub Total-attempt : {A : Type 0} (m : M A) → Keeps (Quiet false) m → Total (attempt m)
unfolding attempt
Total-attempt m k = record { at = λ w h. (tt, k.at w h) }

continue-Total :
    {A B : Type 0} (r : Result A) (f : A → M B)
    → ((a : A) → Total (f a))
    → (w : World) → Returns r
    → Quiet false w
    → Returns (continue r f w).0 × Quiet false (continue r f w).1
continue-Total (ok a) f k w returned h = (k a).at w h
continue-Total (err x) f k w returned h = absurd returned

pub Total-bind :
    {A B : Type 0} (m : M A) (f : A → M B) → Total m → ((a : A) → Total (f a)) → Total (m >>= f)
unfolding ◌>>=◌
Total-bind m f tm tf = record {
  at = λ w h.
      let (r, w') = m w in
      let (returned, quiet) = tm.at w h in continue-Total r f tf w' returned quiet;
}

quiet_list :
    (w : World) (o : Outcome) (rest : List Outcome)
    → w.script ≡ o ∷ rest
    → All (λ x. is_quiet x ≡ true) w.script
    → All (λ x. is_quiet x ≡ true) (o ∷ rest)
quiet_list w o rest e h = subst (All (λ x. is_quiet x ≡ true)) e h

pub Quiet-after :
    {b : Bool} (w : World) (t : Fixed) (o : Outcome) (rest : List Outcome)
    → w.script ≡ o ∷ rest
    → Quiet b w
    → Quiet b (after t rest w)
Quiet-after w t o rest e h = ((quiet_list w o rest e h.0).1, h.1)

no_fault :
    (w : World) (t : Fixed) (name : String) (rest : List Outcome)
    → w.script ≡ fault t name ∷ rest
    → Quiet false w
    → ⊥
no_fault w t name rest e h = cc ((quiet_list w (fault t name) rest e h.0).0)

interrupted : {A : Type 0} (b : Bool) (a : A) → b ≡ false → Returns (interrupt b a)
interrupted true a h = cc
interrupted false a h = tt

pub Total-perform :
    {A : Type 0} (call : World → A × World)
    → ((w : World) → Quiet false w → Quiet false (call w).1)
    → Total (perform call)
unfolding perform
Total-perform call k = record { at = λ w h. go w.script w refl h }
  where
    go :
        (s : List Outcome) (w : World)
        → w.script ≡ s
        → Quiet false w
        → Returns (step s call w).0 × Quiet false (step s call w).1
    go [] w e h = (tt, k w h)
    go (done t ∷ rest) w e h = (tt, k _ (Quiet-after w t (done t) rest e h))
    go (late t ∷ rest) w e h = (interrupted w.armed _ h.1, k _ (Quiet-after w t (late t) rest e h))
    go (fault t name ∷ rest) w e h = absurd (no_fault w t name rest e h)

-- What an awaited call brings about holds afterwards, unless the call failed.
pub Quiet-performs :
    {A : Type 0} (Q : World → Type 0) (call : World → A × World)
    → ((w : World) → Q (call w).1)
    → (w : World) → Quiet false w
    → Q (perform call w).1
unfolding perform
Quiet-performs Q call k w h = go w.script w refl h
  where
    go : (s : List Outcome) (w : World) → w.script ≡ s → Quiet false w → Q (step s call w).1
    go [] w e h = k w
    go (done t ∷ rest) w e h = k _
    go (late t ∷ rest) w e h = k _
    go (fault t name ∷ rest) w e h = absurd (no_fault w t name rest e h)
