-- ===== src/Store/Migrations.antt =====
-- meshcore_rpc_services/persistence/sqlite.py: opening the database and migrating its schema, as far as
-- migrations change it: the stored versions and the columns of gateway_snapshots.
pub mod Reopening
use meshcore_rpc_services.Prelude.{
  ℕ, ◌≡◌, ◌≤◌, ◌↔◌, refl, sym, ap, ◌∙◌, Bool, true, false, ◌||◌, Option, none, some, List, [], ◌∷◌,
  ◌++◌, String, ◌==◌, or_else, ltb, eqb, any, arith, if◌then◌else◌, Bool-cases, inl, inr,
}
use meshcore_rpc_services.Prelude.Keys.{has_key}

-- `snapshot_columns` is none while there is no table.
pub record Layout : Type 0 where
  pub versions : List ℕ
  pub snapshot_columns : Option (List String)

-- The columns that schema.sql creates.
abbrev pub first_columns : List String
first_columns = "id" ∷ "ts" ∷ "status" ∷ "health" ∷ []

-- `_MIGRATIONS`: a version, and the columns that its script adds, each by a statement of its own.
abbrev pub migrations : List (ℕ × List String)
migrations = (2, "state" ∷ "detail" ∷ "since_ts" ∷ []) ∷ []

-- `executescript`: SQLite refuses to add a column that is there.
abbrev pub add_columns : List String → List String → Option (List String)
add_columns [] columns = some columns
add_columns (c ∷ cs) columns =
    let rest = add_columns cs (columns ++ c ∷ []) in if has_key c columns then none else rest

-- `SELECT version ... ORDER BY version DESC LIMIT 1`, or 0.
abbrev pub latest : List ℕ → ℕ
latest [] = 0
latest (v ∷ vs) = let rest = latest vs in if ltb v rest then rest else v

abbrev columns_of : Layout → List String
columns_of s = or_else s.snapshot_columns []

abbrev migrated : ℕ → Layout → Option (List String) → Option Layout
migrated version s none = none
migrated version s (some columns) =
    some (record { versions = s.versions ++ version ∷ []; snapshot_columns = some columns })

-- The loop over `_MIGRATIONS`; `none` stands for `sqlite3.OperationalError`.
unfoldable pub migrate : List (ℕ × List String) → ℕ → Layout → Option Layout
migrate [] current s = some s
migrate ((version, columns) ∷ ms) current s =
    let rest = migrate ms current s in
    if ltb current version
    then elim (migrated version s (add_columns columns (columns_of s))) [
      | none ↦ none
      | some t ↦ migrate ms version t
    ]
    else rest

-- A database without a version is stamped as version 1.
abbrev pub stamped : Layout → Layout
stamped s = if eqb (latest s.versions) 0 then record s { versions = s.versions ++ 1 ∷ [] } else s

-- `_apply_migrations`
unfoldable pub apply_migrations : Layout → Option Layout
apply_migrations s = migrate migrations (latest (stamped s).versions) (stamped s)

-- `CREATE TABLE IF NOT EXISTS gateway_snapshots`
abbrev pub with_table : Layout → Layout
with_table s = record s { snapshot_columns = some (or_else s.snapshot_columns first_columns) }

-- `Store.__init__`
unfoldable pub open_db : Layout → Option Layout
open_db s = apply_migrations (with_table s)
