-- ===== src/Examples/Storage.antt =====
-- The theorems on migrations and on concurrent statements, applied to small tables.
use meshcore_rpc_services.Prelude.{◌≡◌, ◌≤◌, refl, false, none, some, List, [], ◌∷◌, is_some}
use meshcore_rpc_services.Prelude.Int.{pos}
use meshcore_rpc_services.Lifecycle
use meshcore_rpc_services.Examples.{ping_request}
use meshcore_rpc_services.Store.Interleaving.{
  Statement, received, completion, fresh_count, fresh_count_lem,
}
use meshcore_rpc_services.Store.Migrations.{Layout, open_db, migrate, apply_migrations, latest}
use meshcore_rpc_services.Store.Migrations.Reopening.{open_db-again, open_db-succeeds}
use meshcore_rpc_services.Store.Rows.{empty}

abbrev new_file : Layout
new_file = record { versions = []; snapshot_columns = none }

-- What a first opening that ends after one column leaves.
abbrev broken_off : Layout
broken_off = record {
  versions = 1 ∷ [];
  snapshot_columns = some ("id" ∷ "ts" ∷ "status" ∷ "health" ∷ "state" ∷ []);
}

abbrev migrated_file : Layout
migrated_file = record {
  versions = 1 ∷ 2 ∷ [];
  snapshot_columns =
      some ("id" ∷ "ts" ∷ "status" ∷ "health" ∷ "state" ∷ "detail" ∷ "since_ts" ∷ []);
}

open_db-again_example :
    (2 ≤ latest migrated_file.versions) × (open_db migrated_file ≡ some migrated_file)
unfolding open_db apply_migrations migrate
open_db-again_example = open_db-again new_file migrated_file refl

open_db-succeeds_example : is_some (open_db broken_off) ≡ false
open_db-succeeds_example = open_db-succeeds broken_off

abbrev two_copies : List Statement
two_copies =
    received ping_request (pos 30) (pos 0)
    ∷ received ping_request (pos 30) (pos 1)
    ∷ completion "r1" "n1" Lifecycle.completed_ok none none (pos 2)
    ∷ received ping_request (pos 30) (pos 3)
    ∷ []

fresh_count_lem_example : fresh_count "r1" "n1" two_copies empty ≡ 1
fresh_count_lem_example = fresh_count_lem "r1" "n1" two_copies empty
