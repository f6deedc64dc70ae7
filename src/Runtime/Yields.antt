-- ===== src/Runtime/Yields.antt =====
-- What holds of the results of actions.
use meshcore_rpc_services.Prelude.{◌≡◌, subst, Bool, true, false, if◌then◌else◌}
use meshcore_rpc_services.Runtime.Keeps.{Keeps}
use meshcore_rpc_services.Runtime.{
  Exn, Result, ok, err, World, M, pure, raise, attempt, finally, ◌>>=◌, continue,
}

-- If `m` returns, then a result with `P`.
pub record Yields {A : Type 0} (P : A → Type 0) (m : M A) : Type 0 where
  pub at : (w : World) (a : A) → (m w).0 ≡ ok a → P a

module _ {A : Type 0} {P : A → Type 0} where
  pub Yields-pure : (a : A) → P a → Yields P (pure a)
  unfolding pure
  Yields-pure a h = record { at = λ w b e. subst P (ok_inj a b e) h }
    where
      ok_inj : (a b : A) → ok a ≡ ok b → a ≡ b
      ok_inj a b e = cc

  pub Yields-raise : (e : Exn) → Yields P (raise {A = A} e)
  unfolding raise
  Yields-raise e = record { at = λ w b h. cc }

  pub Yields-if : (b : Bool) (m n : M A) → Yields P m → Yields P n → Yields P (if b then m else n)
  Yields-if true m n hm hn = hm
  Yields-if false m n hm hn = hn

  continue-Yields :
      {B : Type 0} (r : Result B) (f : B → M A)
      → ((b : B) → Yields P (f b))
      → (w : World) (a : A) → (continue r f w).0 ≡ ok a
      → P a
  continue-Yields (ok b) f k w a e = (k b).at w a e
  continue-Yields (err x) f k w a e = cc

  -- The last action decides.
  pub Yields-bind :
      {B : Type 0} (m : M B) (f : B → M A) → ((b : B) → Yields P (f b)) → Yields P (m >>= f)
  unfolding ◌>>=◌
  Yields-bind m f k = record { at = λ w a e. continue-Yields (m w).0 f k (m w).1 a e }

  pub Yields-finally : (m : M A) (f : World → World) → Yields P m → Yields P (finally m f)
  unfolding finally
  Yields-finally m f k = record { at = λ w a e. k.at w a e }

-- What goes on with the outcome of `m` may use what its result satisfies.
pub Keeps-bind_attempt :
    {A B : Type 0} {P : World → Type 0} {Q : A → Type 0} (m : M A) (f : Result A → M B)
    → Keeps P m
    → Yields Q m
    → ((r : Result A) → ((a : A) → r ≡ ok a → Q a) → Keeps P (f r))
    → Keeps P (attempt m >>= f)
unfolding ◌>>=◌ attempt
Keeps-bind_attempt m f km ym k = record {
  at = λ w h. (k (m w).0 (λ a e. ym.at w a e)).at (m w).1 (km.at w h);
}

pub ruleset yields_rules = (Yields-raise, Yields-if, Yields-bind)
