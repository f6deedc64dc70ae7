-- ===== src/Geo/Symmetry.antt =====
-- The distance is the same in both directions.
use meshcore_rpc_services.Prelude.{◌≡◌, refl, ◌⊎◌, inl, inr}
use meshcore_rpc_services.Geo.{Platform, two, haversine_m}

-- What floating point and an odd `math.sin` have of signs, with one NaN: a difference of two different
-- numbers, an angle in radians, a half and a sine change sign with their argument, a square does not,
-- and products commute. The difference of a number with itself is +0 in both orders, and -(+0) is -0:
-- there the first law does not ask for the change of sign.
pub record SignLaws (p : Platform) : Type 0 where
  pub neg : p.Real → p.Real
  pub neg-sub : (a b : p.Real) → (a ≡ b) ⊎ (p.sub a b ≡ neg (p.sub b a))
  pub radians-neg : (a : p.Real) → p.radians (neg a) ≡ neg (p.radians a)
  pub div-neg : (a b : p.Real) → p.div (neg a) b ≡ neg (p.div a b)
  pub sin-neg : (a : p.Real) → p.sin (neg a) ≡ neg (p.sin a)
  pub square-neg : (a : p.Real) → p.pow (neg a) (two p) ≡ p.pow a (two p)
  pub mul_comm : (a b : p.Real) → p.mul a b ≡ p.mul b a

module _ (p : Platform) (laws : SignLaws p) where
  -- The square of the sine of half a difference does not depend on its direction.
  square-sin_flip :
      (a b : p.Real)
      → p.pow (p.sin (p.div (p.radians (p.sub a b)) (two p))) (two p)
        ≡ p.pow (p.sin (p.div (p.radians (p.sub b a)) (two p))) (two p)
  square-sin_flip a b = elim (laws.neg-sub a b) [
    | inl same ↦ rw same refl
    | inr e ↦ rw e (simp (laws.radians-neg, laws.div-neg, laws.sin-neg, laws.square-neg))
  ]

  -- Where floating point has the laws `SignLaws`, the distance from one point to another is the
  -- distance back, with every rounding.
  pub haversine_m_symm :
      (lat1 lon1 lat2 lon2 : p.Real)
      → haversine_m p lat1 lon1 lat2 lon2 ≡ haversine_m p lat2 lon2 lat1 lon1
  unfolding haversine_m
  haversine_m_symm lat1 lon1 lat2 lon2 = cc (
    square-sin_flip lat2 lat1,
    square-sin_flip lon2 lon1,
    laws.mul_comm (p.cos (p.radians lat1)) (p.cos (p.radians lat2)),
  )
