-- ===== src/Value.antt =====
-- Python values as `json.loads` returns them: the arguments of requests and the bodies of responses.
use meshcore_rpc_services.Prelude.{
  ◌≡◌, refl, ap, Bool, true, false, not, Option, none, some, [], ◌∷◌, String, ◌==◌,
}
use meshcore_rpc_services.Prelude.Int.{ℤ, pos, Fixed, of_int, eqb_ℤ}
use meshcore_rpc_services.Prelude.Dict.{Dict}

mutual
  pub data Json : Type 0 where
    null : Json
    bool : Bool → Json
    int : ℤ → Json
    float : Fixed → Json
    str : String → Json
    arr : Items → Json
    obj : Fields → Json

  pub data Items : Type 0 where
    nil : Items
    cons : Json → Items → Items

  pub data Fields : Type 0 where
    end : Fields
    field : String → Json → Fields → Fields

-- The entries of a dict value, and the dict value of some entries.
abbrev pub entries : Fields → Dict Json
entries end = []
entries (field k v fs) = (k, v) ∷ entries fs

abbrev pub of_entries : Dict Json → Fields
of_entries [] = end
of_entries ((k, v) ∷ d) = field k v (of_entries d)

pub entries-of_entries : (d : Dict Json) → entries (of_entries d) ≡ d
entries-of_entries [] = refl
entries-of_entries ((k, v) ∷ d) = ap (λ r. (k, v) ∷ r) (entries-of_entries d)

pub of_entries-entries : (fs : Fields) → of_entries (entries fs) ≡ fs
of_entries-entries end = refl
of_entries-entries (field k v fs) = ap (field k v) (of_entries-entries fs)

-- `bool(x)`
abbrev pub truthy : Json → Bool
truthy null = false
truthy (bool b) = b
truthy (int z) = not (eqb_ℤ z (pos 0))
truthy (float x) = not (eqb_ℤ x (pos 0))
truthy (str s) = not (s == "")
truthy (arr nil) = false
truthy (arr (cons x xs)) = true
truthy (obj end) = false
truthy (obj (field k v fs)) = true

abbrev pub truthy? : Option Json → Bool
truthy? none = false
truthy? (some x) = truthy x

-- `float(x)` if `isinstance(x, (int, float))`. A bool is an int in Python.
abbrev pub number? : Option Json → Option Fixed
number? (some (bool true)) = some (of_int (pos 1))
number? (some (bool false)) = some (of_int (pos 0))
number? (some (int z)) = some (of_int z)
number? (some (float x)) = some x
number? _ = none

-- `int(x)` if `isinstance(x, int)`.
abbrev pub integer? : Option Json → Option ℤ
integer? (some (bool true)) = some (pos 1)
integer? (some (bool false)) = some (pos 0)
integer? (some (int z)) = some z
integer? _ = none

-- `x` if `isinstance(x, str)`.
abbrev pub text? : Option Json → Option String
text? (some (str s)) = some s
text? _ = none

-- `null` for `None`: an optional column or field as an entry of a dict.
abbrev pub opt_float : Option Fixed → Json
opt_float none = null
opt_float (some x) = float x

abbrev pub opt_int : Option ℤ → Json
opt_int none = null
opt_int (some z) = int z

abbrev pub opt_str : Option String → Json
opt_str none = null
opt_str (some s) = str s

abbrev pub is_null : Json → Bool
is_null null = true
is_null _ = false
