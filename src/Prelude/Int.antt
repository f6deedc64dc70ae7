-- ===== src/Prelude/Int.antt =====
-- Signed integers over the native numbers, under the library's names, and fixed-point fractions.
use Prim.Native.Nat.{ℕ, suc, ◌+◌, ◌-◌, ◌*◌, ◌/◌, ◌≤◌, ◌<◌}
use mathlib.Core.Path.{◌≡◌}
use mathlib.Core.Bool.{Bool}
use native.Mathlib.Omega.{arith}
use Prim.Native.String.{String}
use mathlib.Core.List.{[], ◌∷◌}
use meshcore_rpc_services.Prelude.Tests.{ltb, leb, eqb, if◌then◌else◌}
use meshcore_rpc_services.Prelude.Text.{format, show_nat}

-- `negsuc n` is -(n + 1).
pub data ℤ : Type 0 where
  pos : ℕ → ℤ
  negsuc : ℕ → ℤ

abbrev pub pos_part : ℤ → ℕ
pos_part (pos n) = n
pos_part (negsuc n) = 0

abbrev pub neg_part : ℤ → ℕ
neg_part (pos n) = 0
neg_part (negsuc n) = suc n

-- a - b, as an integer.
abbrev pub sub_ℕ : ℕ → ℕ → ℤ
sub_ℕ a b = if leb b a then pos (a - b) else negsuc (b - a - 1)

infixl 65 ◌+ℤ◌ ◌-ℤ◌
infix 50 ◌≤ℤ◌ ◌<ℤ◌
unfoldable pub ◌+ℤ◌ : ℤ → ℤ → ℤ
a +ℤ b = sub_ℕ (pos_part a + pos_part b) (neg_part a + neg_part b)

unfoldable pub ◌-ℤ◌ : ℤ → ℤ → ℤ
a -ℤ b = sub_ℕ (pos_part a + neg_part b) (neg_part a + pos_part b)

abbrev pub ◌≤ℤ◌ : ℤ → ℤ → Type 0
a ≤ℤ b = pos_part a + neg_part b ≤ pos_part b + neg_part a

abbrev pub ◌<ℤ◌ : ℤ → ℤ → Type 0
a <ℤ b = pos_part a + neg_part b < pos_part b + neg_part a

abbrev pub ltb_ℤ : ℤ → ℤ → Bool
ltb_ℤ a b = ltb (pos_part a + neg_part b) (pos_part b + neg_part a)

abbrev pub leb_ℤ : ℤ → ℤ → Bool
leb_ℤ a b = leb (pos_part a + neg_part b) (pos_part b + neg_part a)

abbrev pub eqb_ℤ : ℤ → ℤ → Bool
eqb_ℤ a b = eqb (pos_part a + neg_part b) (pos_part b + neg_part a)

-- Python's `max` and `min`, which return their first argument on a tie.
abbrev pub max_ℤ : ℤ → ℤ → ℤ
max_ℤ a b = if ltb_ℤ a b then b else a

abbrev pub min_ℤ : ℤ → ℤ → ℤ
min_ℤ a b = if ltb_ℤ b a then b else a

abbrev pub abs_ℤ : ℤ → ℤ
abs_ℤ a = pos (pos_part a + neg_part a)

-- `str(z)`
unfoldable pub show_int : ℤ → String
unfolding format show_nat
show_int (pos n) = show_nat n
show_int (negsuc n) = format ("-" ∷ show_nat (suc n) ∷ [])

-- One lemma for each operation lets `omega` work with the operations shut.
pub +ℤ_parts :
    (a b : ℤ)
    → pos_part (a +ℤ b) + neg_part a + neg_part b ≡ neg_part (a +ℤ b) + pos_part a + pos_part b
unfolding ◌+ℤ◌
+ℤ_parts a b = ground arith

pub -ℤ_parts :
    (a b : ℤ)
    → pos_part (a -ℤ b) + neg_part a + pos_part b ≡ neg_part (a -ℤ b) + pos_part a + neg_part b
unfolding ◌-ℤ◌
-ℤ_parts a b = ground arith

pub eq_of_parts : (a b : ℤ) → pos_part a + neg_part b ≡ pos_part b + neg_part a → a ≡ b
eq_of_parts a b h = ground arith

pub ruleset int_laws = (arith, +ℤ_parts, -ℤ_parts, eq_of_parts)

-- A Python float stands for the whole number of millionths next to it: 1.5 is `pos 1500000`.
abbrev pub Fixed : Type 0
Fixed = ℤ

abbrev pub scale : ℕ
scale = 1000000

-- `float(n)` of a whole number.
unfoldable pub of_int : ℤ → Fixed
of_int (pos n) = pos (n * scale)
of_int (negsuc n) = negsuc (suc n * scale - 1)

-- `int(x)`, which rounds toward zero.
unfoldable pub trunc : Fixed → ℤ
trunc (pos n) = pos (n / scale)
trunc (negsuc n) = sub_ℕ 0 (suc n / scale)

pub trunc-of_int : (z : ℤ) → trunc (of_int z) ≡ z
unfolding trunc of_int
trunc-of_int (pos n) = ground arith
trunc-of_int (negsuc n) = ground arith

-- The program's `max(0, int(now - ts))`.
unfoldable pub age_of : Fixed → Fixed → ℤ
unfolding trunc ◌-ℤ◌
age_of now ts = max_ℤ (pos 0) (trunc (now -ℤ ts))

-- An age is over a bound exactly when at least one whole second more has passed.
pub age_of_le :
    (now ts : Fixed) (k : ℕ)
    → ltb_ℤ (pos k) (age_of now ts) ≡ leb_ℤ (of_int (pos (suc k))) (now -ℤ ts)
unfolding age_of of_int ◌-ℤ◌
age_of_le now ts k = ground arith
