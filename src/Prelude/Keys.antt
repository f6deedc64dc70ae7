-- ===== src/Prelude/Keys.antt =====
-- Dicts with each key once, and the keys of a dict.
use Prim.Native.String.{String}
use mathlib.Core.Path.{◌≡◌, refl, ◌∙◌, subst}
use mathlib.Core.Logic.{inl, inr}
use mathlib.Core.Bool.{Bool, true, false}
use mathlib.Core.Option.{none, some}
use mathlib.Core.List.{List, [], ◌∷◌, map}
use native.Mathlib.Omega.{arith}
use text.Mathlib.Text.{◌==◌}
use text.Mathlib.TextEquality.{eq_iff}
use meshcore_rpc_services.Prelude.Tests.{if◌then◌else◌, Bool-cases}
use meshcore_rpc_services.Prelude.Lists.{filter}
use meshcore_rpc_services.Prelude.Dict.{Dict, lookup, contains, insert, erase, contains-lookup}

abbrev pub has_key : String → List String → Bool
has_key k [] = false
has_key k (j ∷ js) = if j == k then true else has_key k js

module _ {ℓ} {V : Type ℓ} where
  -- No key stands twice.
  abbrev pub IsDistinct : Dict V → Type 0
  IsDistinct [] = Unit
  IsDistinct ((k, v) ∷ d) = (contains k d ≡ false) × IsDistinct d

  pub contains-insert :
      (k j : String) (v : V) (d : Dict V)
      → contains j (insert k v d) ≡ (if k == j then true else contains j d)
  unfolding contains insert
  contains-insert k j v [] = refl
  contains-insert k j v ((i, w) ∷ d) =
      ground (arith, eq_iff k j, eq_iff i k, eq_iff i j, contains-insert k j v d)

  pub contains-erase :
      (k j : String) (d : Dict V)
      → contains j (erase k d) ≡ (if k == j then false else contains j d)
  unfolding contains erase
  contains-erase k j [] = ground arith
  contains-erase k j ((i, w) ∷ d) =
      ground (arith, eq_iff k j, eq_iff i k, eq_iff i j, contains-erase k j d)

  pub insert-IsDistinct :
      (k : String) (v : V) (d : Dict V) → IsDistinct d → IsDistinct (insert k v d)
  unfolding insert contains
  insert-IsDistinct k v [] h = (ground arith, tt)
  insert-IsDistinct k v ((i, w) ∷ d) h = elim (Bool-cases (i == k)) [
    | inl same ↦ rw same h
    | inr other ↦ rw other (
      ground (arith, contains-insert k i v d, h.0, other, eq_iff i k, eq_iff k i),
      insert-IsDistinct k v d h.1,
    )
  ]

  pub erase-IsDistinct : (k : String) (d : Dict V) → IsDistinct d → IsDistinct (erase k d)
  unfolding erase
  erase-IsDistinct k [] h = tt
  erase-IsDistinct k ((i, w) ∷ d) h = elim (Bool-cases (i == k)) [
    | inl same ↦ rw same (erase-IsDistinct k d h.1)
    | inr other ↦ rw other (ground (arith, contains-erase k i d, h.0), erase-IsDistinct k d h.1)
  ]

  pub lookup-absent : (k : String) (d : Dict V) → contains k d ≡ false → lookup k d ≡ none
  lookup-absent k d h = ground (arith, contains-lookup k d, h)

  has_key-if :
      (b : Bool) (k j : String) (v : V) (d : Dict V)
      → has_key k (map (λ e. e.0) (if b then (j, v) ∷ d else d)) ≡ (
          if b
          then (if j == k then true else has_key k (map (λ e. e.0) d))
          else has_key k (map (λ e. e.0) d))
  has_key-if true k j v d = refl
  has_key-if false k j v d = refl

  -- The keys of the entries that pass a test are those whose value passes it.
  pub has_key-filter :
      (p : V → Bool) (k : String) (d : Dict V)
      → IsDistinct d
      → has_key k (map (λ e. e.0) (filter (λ e. p e.1) d))
        ≡ elim (lookup k d) [ none ↦ false | some v ↦ p v ]
  unfolding lookup
  has_key-filter p k [] h = refl
  has_key-filter p k ((i, w) ∷ d) h =
      has_key-if (p w) k i w (filter (λ e. p e.1) d) ∙ elim (Bool-cases (i == k)) [
        | inl same ↦
            let fresh = subst (λ s. contains s d ≡ false) ((eq_iff i k).0 same) h.0 in
            ground (arith, same, has_key-filter p k d h.1, lookup-absent k d fresh)
        | inr other ↦ ground (arith, other, has_key-filter p k d h.1)
      ]
