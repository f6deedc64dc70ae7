-- ===== src/Prelude/Split.antt =====
-- Slices of texts from their ends, and `split("/")`.
use Prim.Native.Nat.{ℕ, zero, suc, ◌+◌, ◌-◌}
use Prim.Native.Char.{Char}
use Prim.Native.String.{String, ◌++◌}
use mathlib.Core.Path.{◌≡◌, refl, sym, ap, ◌∙◌}
use mathlib.Core.Bool.{Bool, true, false}
use mathlib.Core.List.{List, [], ◌∷◌}
use native.Mathlib.Omega.{arith}
use text.Mathlib.Text.{◌==◌}
use text.Mathlib.TextEquality.{eq_iff}
use text.Mathlib.TextPositions.{eq_refl}
use text.Mathlib.TextLemmas.{nil-append, cons-append}
use meshcore_rpc_services.Prelude.Tests.{if◌then◌else◌}
use meshcore_rpc_services.Prelude.Text.{char_count, take_chars, drop_chars}

-- `s.endswith(t)`
abbrev pub ends_with : String → String → Bool
ends_with s t = drop_chars (char_count s - char_count t) s == t

-- `s[:-len(t)]`, for a `t` that is not empty.
abbrev pub drop_end : String → String → String
drop_end s t = take_chars (char_count s - char_count t) s

abbrev is_slash : Char → Bool
is_slash c = String.◌∷◌ c "" == "/"

-- `"/" in s`
unfoldable pub has_slash : String → Bool
has_slash String.[] = false
has_slash (String.◌∷◌ c s) = if is_slash c then true else has_slash s

abbrev to_first : Char → List String → List String
to_first c [] = []
to_first c (s ∷ rest) = String.◌∷◌ c s ∷ rest

-- `s.split("/")`
unfoldable pub split_slash : String → List String
split_slash String.[] = "" ∷ []
split_slash (String.◌∷◌ c s) =
    let rest = split_slash s in if is_slash c then "" ∷ rest else to_first c rest

pub char_count-append : (s t : String) → char_count (s ++ t) ≡ char_count s + char_count t
char_count-append String.[] t = rw (nil-append t) (omega arith)
char_count-append (String.◌∷◌ c s) t = rw (cons-append c s t) (omega (arith, char_count-append s t))

pub drop_chars-append : (s t : String) → drop_chars (char_count s) (s ++ t) ≡ t
drop_chars-append String.[] t = nil-append t
drop_chars-append (String.◌∷◌ c s) t = rw (cons-append c s t) (drop_chars-append s t)

pub take_chars-append : (s t : String) → take_chars (char_count s) (s ++ t) ≡ s
take_chars-append String.[] t = refl
take_chars-append (String.◌∷◌ c s) t =
    rw (cons-append c s t) (ap (String.◌∷◌ c) (take_chars-append s t))

pub take_chars-drop_chars : (n : ℕ) (s : String) → take_chars n s ++ drop_chars n s ≡ s
take_chars-drop_chars zero s = nil-append s
take_chars-drop_chars (suc n) String.[] = nil-append ""
take_chars-drop_chars (suc n) (String.◌∷◌ c s) =
    cons-append c (take_chars n s) (drop_chars n s) ∙ ap (String.◌∷◌ c) (take_chars-drop_chars n s)

end_position : (s t : String) → char_count (s ++ t) - char_count t ≡ char_count s
end_position s t = omega (arith, char_count-append s t)

pub ends_with-append : (s t : String) → ends_with (s ++ t) t ≡ true
ends_with-append s t = rw (end_position s t) (rw (drop_chars-append s t) (eq_refl t))

pub drop_end-append : (s t : String) → drop_end (s ++ t) t ≡ s
drop_end-append s t = rw (end_position s t) (take_chars-append s t)

pub drop_end-join : (s t : String) → ends_with s t ≡ true → s ≡ drop_end s t ++ t
drop_end-join s t h =
    let n = char_count s - char_count t in
    sym (take_chars-drop_chars n s)
    ∙ ap (λ r. take_chars n s ++ r) ((eq_iff (drop_chars n s) t).0 h)

no_slash_cons :
    (d : Char) (s : String)
    → has_slash (String.◌∷◌ d s) ≡ false
    → (is_slash d ≡ false) × (has_slash s ≡ false)
unfolding has_slash
no_slash_cons d s h = ground (arith, h)

-- A text with no slash is all of the first piece.
split_slash-append :
    (s : String) (c : Char) (t : String)
    → has_slash s ≡ false
    → is_slash c ≡ true
    → split_slash (s ++ String.◌∷◌ c t) ≡ s ∷ split_slash t
unfolding split_slash
split_slash-append String.[] c t h slash = rw (nil-append (String.◌∷◌ c t)) (rw slash)
split_slash-append (String.◌∷◌ d s) c t h slash =
    let (first, rest) = no_slash_cons d s h in
    rw (cons-append d s (String.◌∷◌ c t)) (rw first (rw (split_slash-append s c t rest slash)))

pub split_slash-join :
    (s t : String) → has_slash s ≡ false → split_slash (s ++ ("/" ++ t)) ≡ s ∷ split_slash t
split_slash-join s t h =
    rw (cons-append _ "" t) (rw (nil-append t) (split_slash-append s _ t h refl))

-- Texts that end in different pieces of one length are different.
pub append-same_length : (s t u v : String) → s ++ u ≡ t ++ v → char_count u ≡ char_count v → u ≡ v
append-same_length s t u v e h =
    let total = ap char_count e in
    let n : char_count s ≡ char_count t =
      omega (arith, char_count-append s u, char_count-append t v, total) in
    sym (drop_chars-append s u)
    ∙ ap (λ k. drop_chars k (s ++ u)) n
    ∙ ap (drop_chars (char_count t)) e
    ∙ drop_chars-append t v
