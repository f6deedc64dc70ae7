-- ===== src/Schemas/Validate.antt =====
-- `Request.model_validate` of meshcore_rpc_services/schemas.py: the constraints that the fields of
-- `Request` declare. How pydantic reads a number is a parameter.
use meshcore_rpc_services.Prelude.{
  ◌≡◌, refl, subst, Bool, true, ◌&&◌, ◌||◌, Option, none, some, [], ◌∷◌, String, ◌==◌, leb,
  char_count, if◌then◌else◌, arith,
}
use meshcore_rpc_services.Prelude.Int.{ℤ, pos, leb_ℤ}
use meshcore_rpc_services.Prelude.Dict.{Dict, lookup, contains}
use meshcore_rpc_services.Value.{Json, null, str, obj, entries}
use meshcore_rpc_services.Schemas.{Request, schema_version}

infixl 5 ◌>>=◌
abbrev ◌>>=◌ : {A B : Type 0} → Option A → (A → Option B) → Option B
none >>= f = none
some a >>= f = f a

-- `str = Field(min_length=1, max_length=128)`
abbrev pub in_bounds : String → Bool
in_bounds s = leb 1 (char_count s) && leb (char_count s) 128

abbrev allow : {A : Type 0} → Bool → A → Option A
allow b a = if b then some a else none

abbrev bounded : Option Json → Option String
bounded (some (str s)) = allow (in_bounds s) s
bounded _ = none

-- The aliased field is read under "from", or else under its own name.
abbrev sender_key : Dict Json → String
sender_key d = if contains "from" d then "from" else "from_"

-- `extra="forbid"`: every key is one that a field has read.
unfoldable pub known_keys : String → Dict Json → Bool
known_keys sender [] = true
known_keys sender ((k, v) ∷ d) =
    (k == "v" || k == "id" || k == "type" || k == sender || k == "ttl" || k == "args")
    && known_keys sender d

abbrev args_field : Option Json → Option (Dict Json)
args_field none = some []
args_field (some (obj fs)) = some (entries fs)
args_field (some _) = none

module _ (lax_int : Json → Option ℤ) where
  abbrev version_field : Option Json → Option ℤ
  version_field none = some schema_version
  version_field (some x) = lax_int x

  -- `Optional[int] = Field(default=None, ge=1)`
  abbrev ttl_field : Option Json → Option (Option ℤ)
  ttl_field none = some none
  ttl_field (some null) = some none
  ttl_field (some x) = do z ← lax_int x; allow (leb_ℤ (pos 1) z) (some z)

  abbrev validate_dict : Dict Json → Option Request
  validate_dict d = do
    v ← version_field (lookup "v" d)
    id ← bounded (lookup "id" d)
    type ← bounded (lookup "type" d)
    from_ ← bounded (lookup (sender_key d) d)
    ttl ← ttl_field (lookup "ttl" d)
    args ← args_field (lookup "args" d)
    allow (known_keys (sender_key d) d)
        (record { v = v; id = id; type = type; from_ = from_; ttl = ttl; args = args })

  -- `none` stands for a `ValidationError`.
  unfoldable pub model_validate : Json → Option Request
  unfolding known_keys
  model_validate (obj fs) = validate_dict (entries fs)
  model_validate _ = none

abbrev pub ttl_ok : Option ℤ → Bool
ttl_ok none = true
ttl_ok (some z) = leb_ℤ (pos 1) z

-- What pydantic guarantees of a request.
pub record IsValid (r : Request) : Type 0 where
  pub id_bounds : in_bounds r.id ≡ true
  pub type_bounds : in_bounds r.type ≡ true
  pub from_bounds : in_bounds r.from_ ≡ true
  pub ttl_bound : ttl_ok r.ttl ≡ true

module _ (lax_int : Json → Option ℤ) where
  bounded_cases : (o : Option Json) (s : String) → bounded o ≡ some s → in_bounds s ≡ true
  bounded_cases (some (str t)) s h = ground arith
  bounded_cases _ s h = cc

  ttl_cases : (o : Option Json) (t : Option ℤ) → ttl_field lax_int o ≡ some t → ttl_ok t ≡ true
  ttl_cases o t h = ground arith

  -- A property of the result of a chain is shown step by step, knowing what each step returned.
  >>=-some :
      {A B : Type 0} {P : B → Type 0} (m : Option A) (f : A → Option B)
      → ((a : A) → m ≡ some a → (b : B) → f a ≡ some b → P b)
      → (b : B) → (m >>= f) ≡ some b
      → P b
  >>=-some none f k b h = cc
  >>=-some (some a) f k b h = k a refl b h

  allow-some :
      {A : Type 0} (P : A → Type 0) (c : Bool) (a : A) → P a → (b : A) → allow c a ≡ some b → P b
  allow-some P c a p b h = subst P (ground arith) p

  -- Whatever is accepted satisfies the declared bounds of its fields.
  pub model_validate-IsValid :
      (x : Json) (r : Request) → model_validate lax_int x ≡ some r → IsValid r
  unfolding model_validate
  model_validate-IsValid (obj fs) =
      let d = entries fs in
      >>=-some (version_field lax_int (lookup "v" d)) _ λ v _.
        >>=-some (bounded (lookup "id" d)) _ λ id e_id.
          >>=-some (bounded (lookup "type" d)) _ λ type e_type.
            >>=-some (bounded (lookup (sender_key d) d)) _ λ from_ e_from.
              >>=-some (ttl_field lax_int (lookup "ttl" d)) _ λ ttl e_ttl.
                >>=-some (args_field (lookup "args" d)) _ λ args _. allow-some IsValid _ _ (record {
                  id_bounds = bounded_cases (lookup "id" d) id e_id;
                  type_bounds = bounded_cases (lookup "type" d) type e_type;
                  from_bounds = bounded_cases (lookup (sender_key d) d) from_ e_from;
                  ttl_bound = ttl_cases (lookup "ttl" d) ttl e_ttl;
                })
  model_validate-IsValid _ = λ r h. cc
