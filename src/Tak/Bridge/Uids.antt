-- ===== src/Tak/Bridge/Uids.antt =====
-- Which entities share a uid on the TAK server.
use meshcore_rpc_services.Prelude.{
  ◌≡◌, ◌≢◌, refl, sym, ap, ◌∙◌, ◌⊎◌, ◌↔◌, true, false, String, ◌==◌, eq_iff, format, if◌then◌else◌,
  Bool-cases, inl, inr,
}
use Prim.Native.String.{◌++◌}
use text.Mathlib.TextLemmas.{append-nil, append_cancel_left}
use meshcore_rpc_services.Tak.NodeTopic.{base_key}
use meshcore_rpc_services.Tak.Bridge.{uid_of}

-- The part of a uid behind its prefix.
abbrev name_of : String → String
name_of key = if key == base_key then "base" else key

uid_of-name_of : (k j : String) → uid_of k ≡ uid_of j → name_of k ≡ name_of j
unfolding format
uid_of-name_of k j h =
    sym (append-nil (name_of k))
    ∙ append_cancel_left "meshcore." (name_of k ++ "") (name_of j ++ "") h
    ∙ append-nil (name_of j)

name_of-base : (k : String) → (k == base_key) ≡ true → name_of k ≡ "base"
name_of-base k h = rw h refl

name_of-node : (k : String) → (k == base_key) ≡ false → name_of k ≡ k
name_of-node k h = rw h refl

shared :
    (k j : String)
    → k ≢ j
    → name_of k ≡ name_of j
    → ((k ≡ base_key) × (j ≡ "base")) ⊎ ((k ≡ "base") × (j ≡ base_key))
shared k j differ h = elim (Bool-cases (k == base_key)) [
  | inl kb ↦ elim (Bool-cases (j == base_key)) [
    | inl jb ↦ absurd (differ ((eq_iff k base_key).0 kb ∙ sym ((eq_iff j base_key).0 jb)))
    | inr jn ↦ inl ((eq_iff k base_key).0 kb, sym (name_of-node j jn) ∙ sym h ∙ name_of-base k kb)
  ]
  | inr kn ↦ elim (Bool-cases (j == base_key)) [
    | inl jb ↦ inr (sym (name_of-node k kn) ∙ h ∙ name_of-base j jb, (eq_iff j base_key).0 jb)
    | inr jn ↦ absurd (differ (sym (name_of-node k kn) ∙ h ∙ name_of-node j jn))
  ]
]

collide :
    (k j : String)
    → ((k ≡ base_key) × (j ≡ "base")) ⊎ ((k ≡ "base") × (j ≡ base_key))
    → uid_of k ≡ uid_of j
collide k j (inl (hk, hj)) = ap uid_of hk ∙ sym (ap uid_of hj)
collide k j (inr (hk, hj)) = ap uid_of hk ∙ sym (ap uid_of hj)

-- Two different keys have the same uid exactly if one is the base's and the other is the node id
-- "base".
pub uid_of-shared :
    (k j : String)
    → k ≢ j
    → (uid_of k ≡ uid_of j) ↔ (((k ≡ base_key) × (j ≡ "base")) ⊎ ((k ≡ "base") × (j ≡ base_key)))
uid_of-shared k j differ = (λ h. shared k j differ (uid_of-name_of k j h), collide k j)
