-- ===== src/Store/Migrations/Reopening.antt =====
-- When a database can be opened, and that opening it again changes nothing.
use meshcore_rpc_services.Prelude.{
  ℕ, ◌≡◌, ◌≤◌, ◌<◌, refl, sym, ap, ◌∙◌, Bool, true, false, not, ◌||◌, Option, none, some, List, [],
  ◌∷◌, ◌++◌, String, ◌==◌, or_else, ltb, leb, eqb, any, is_some, arith, if◌then◌else◌, Bool-cases,
  inl, inr, ◌⊎◌, lt→ltb, leb→le,
}
use meshcore_rpc_services.Prelude.Keys.{has_key}
use meshcore_rpc_services.Store.Migrations.{
  Layout, first_columns, migrations, add_columns, latest, migrate, stamped, apply_migrations,
  open_db, migrated,
}

latest-append :
    (vs : List ℕ) (v : ℕ) → latest (vs ++ v ∷ []) ≡ (if ltb (latest vs) v then v else latest vs)
latest-append [] v = ground arith
latest-append (u ∷ vs) v = ground (arith, latest-append vs v)

-- The newest version after stamping.
latest-stamped :
    (s : Layout)
    → latest (stamped s).versions ≡ (if eqb (latest s.versions) 0 then 1 else latest s.versions)
latest-stamped s = elim (Bool-cases (eqb (latest s.versions) 0)) [
  | inl new ↦ ground (arith, new, latest-append s.versions 1)
  | inr old ↦ ground (arith, old)
]

has_key-append :
    (k j : String) (xs : List String)
    → has_key k (xs ++ j ∷ []) ≡ (if has_key k xs then true else j == k)
has_key-append k j [] = ground arith
has_key-append k j (x ∷ xs) = ground (arith, has_key-append k j xs)

-- The columns that version 2 adds.
abbrev pub added : List String
added = "state" ∷ "detail" ∷ "since_ts" ∷ []

abbrev pub has_added : List String → Bool
has_added columns = any (λ c. has_key c columns) added

abbrev with_added : List String → List String
with_added columns = ((columns ++ "state" ∷ []) ++ "detail" ∷ []) ++ "since_ts" ∷ []

add_columns-added :
    (columns : List String)
    → add_columns added columns ≡ (if has_added columns then none else some (with_added columns))
add_columns-added columns = ground (
  arith,
  has_key-append "detail" "state" columns,
  has_key-append "since_ts" "state" columns,
  has_key-append "since_ts" "detail" (columns ++ "state" ∷ []),
)

abbrev layout : List ℕ → List String → Layout
layout vs columns = record { versions = vs; snapshot_columns = some columns }

-- Opening, as a formula over the versions and the columns.
abbrev stamped_versions : List ℕ → List ℕ
stamped_versions vs = if eqb (latest vs) 0 then vs ++ 1 ∷ [] else vs

abbrev opened : List ℕ → List String → Option Layout
opened vs columns =
    if leb 2 (latest vs)
    then some (layout vs columns)
    else if has_added columns
    then none
    else some (layout (stamped_versions vs ++ 2 ∷ []) (with_added columns))

migrate-current : (s : Layout) (n : ℕ) → 2 ≤ n → migrate migrations n s ≡ some s
unfolding migrate
migrate-current s n h = let current : ltb n 2 ≡ false = ground arith in rw current

abbrev raised_to : Layout → Option (List String) → Option Layout
raised_to s o = elim (migrated 2 s o) [ none ↦ none | some t ↦ some t ]

added_to :
    (b : Bool) (vs : List ℕ) (columns more : List String)
    → raised_to (layout vs columns) (if b then none else some more)
      ≡ (if b then none else some (layout (vs ++ 2 ∷ []) more))
added_to true vs columns more = refl
added_to false vs columns more = refl

migrate-old :
    (vs : List ℕ) (columns : List String) (n : ℕ)
    → n < 2
    → migrate migrations n (layout vs columns)
      ≡ (if has_added columns then none else some (layout (vs ++ 2 ∷ []) (with_added columns)))
unfolding migrate
migrate-old vs columns n h = rw (lt→ltb n 2 h) (
    ap (raised_to (layout vs columns)) (add_columns-added columns)
    ∙ added_to (has_added columns) vs columns (with_added columns))

abbrev run : Layout → Option Layout
run s = migrate migrations (latest s.versions) s

stamped-new :
    (vs : List ℕ) (columns : List String)
    → eqb (latest vs) 0 ≡ true
    → stamped (layout vs columns) ≡ layout (vs ++ 1 ∷ []) columns
stamped-new vs columns h = rw h

stamped-old :
    (vs : List ℕ) (columns : List String)
    → eqb (latest vs) 0 ≡ false
    → stamped (layout vs columns) ≡ layout vs columns
stamped-old vs columns h = rw h

apply-opened :
    (vs : List ℕ) (columns : List String) → apply_migrations (layout vs columns) ≡ opened vs columns
unfolding apply_migrations
apply-opened vs columns = elim (Bool-cases (eqb (latest vs) 0)) [
  | inl new ↦
      let below : leb 2 (latest vs) ≡ false = ground (arith, new) in
      let one : latest (vs ++ 1 ∷ []) < 2 = ground (arith, new, latest-append vs 1) in
      ap run (stamped-new vs columns new)
      ∙ migrate-old (vs ++ 1 ∷ []) columns (latest (vs ++ 1 ∷ [])) one
      ∙ rw (new, below)
  | inr old ↦ ap run (stamped-old vs columns old) ∙ elim (Bool-cases (leb 2 (latest vs))) [
    | inl above ↦
        migrate-current (layout vs columns) (latest vs) (leb→le 2 (latest vs) above)
        ∙ rw (old, above)
    | inr below ↦
        let small : latest vs < 2 = ground (arith, below) in
        migrate-old vs columns (latest vs) small ∙ rw (old, below)
  ]
]

abbrev columns_now : Layout → List String
columns_now s = or_else s.snapshot_columns first_columns

pub open_db-opened : (s : Layout) → open_db s ≡ opened s.versions (columns_now s)
unfolding open_db
open_db-opened s = apply-opened s.versions (columns_now s)

is_some-opened :
    (vs : List ℕ) (columns : List String)
    → is_some (opened vs columns) ≡ (leb 2 (latest vs) || not (has_added columns))
is_some-opened vs columns = ground arith

-- A database opens exactly if its newest version is 2 or later, or none of the three columns that
-- version 2 adds is in gateway_snapshots yet.
pub open_db-succeeds :
    (s : Layout)
    → is_some (open_db s)
      ≡ (leb 2 (latest s.versions) || not (has_added (or_else s.snapshot_columns first_columns)))
open_db-succeeds s = ap is_some (open_db-opened s) ∙ is_some-opened s.versions (columns_now s)

-- What opening leaves.
abbrev IsCurrent : Layout → Type 0
IsCurrent t = (vs : List ℕ) × (columns : List String) × (t ≡ layout vs columns) × (2 ≤ latest vs)

one_of :
    (b c : Bool) (x y t : Layout)
    → (if b then some x else if c then none else some y) ≡ some t
    → ((b ≡ true) × (t ≡ x)) ⊎ ((b ≡ false) × (t ≡ y))
one_of true c x y t h = inl (refl, cc)
one_of false true x y t h = absurd cc
one_of false false x y t h = inr (refl, cc)

newest : (n : ℕ) → 2 ≤ (if ltb n 2 then 2 else n)
newest n = ground arith

opened-IsCurrent :
    (vs : List ℕ) (columns : List String) (t : Layout) → opened vs columns ≡ some t → IsCurrent t
opened-IsCurrent vs columns t h =
    elim (one_of (leb 2 (latest vs)) (has_added columns) (layout vs columns) _ t h) [
      | inl (above, e) ↦ (vs, columns, e, leb→le 2 (latest vs) above)
      | inr (below, e) ↦ (
        stamped_versions vs ++ 2 ∷ [],
        with_added columns,
        e,
        omega (arith, latest-append (stamped_versions vs) 2, newest (latest (stamped_versions vs))),
      )
    ]

-- A database that was opened has a newest version of at least 2, and opens again to itself: the
-- migrations run once.
pub open_db-again :
    (s t : Layout) → open_db s ≡ some t → (2 ≤ latest t.versions) × (open_db t ≡ some t)
open_db-again s t h =
    let (vs, columns, e, current) =
      opened-IsCurrent s.versions (columns_now s) t (sym (open_db-opened s) ∙ h) in
    let above : leb 2 (latest vs) ≡ true = ground arith in
    (
      omega (arith, current, ap (λ (u : Layout). latest u.versions) e),
      ap open_db e ∙ open_db-opened (layout vs columns) ∙ rw above (ap some (sym e)),
    )
