-- ===== src/Store/Invariant.antt =====
-- What the statements of the request tables keep true: the primary key is unique, a row is final
-- exactly when it is completed, and only the states of lifecycle.py are stored as final.
use meshcore_rpc_services.Prelude.{
  ◌≡◌, refl, Bool, true, false, Option, none, some, List, [], ◌∷◌, ◌++◌, String, eq_iff, any,
  filter, map, All, All-append, is_some, arith, Bool-cases, inl, inr,
}
use meshcore_rpc_services.Prelude.Int.{ℤ, Fixed}
use meshcore_rpc_services.Lifecycle
use meshcore_rpc_services.Schemas.{Request, Response}
use meshcore_rpc_services.Store.Rows.{RequestRow, Db}
use meshcore_rpc_services.Store.Requests.{
  has_key, received_row, record_received, record_event, completed, record_completion,
}
use meshcore_rpc_services.Store.Retention.{purge_before}

abbrev pub final_ok : Option String → Bool
final_ok none = true
final_ok (some s) = Lifecycle.is_in s Lifecycle.all_final_states

pub record IsValidRow (row : RequestRow) : Type 0 where
  pub known_final : final_ok row.final_state ≡ true
  pub completed_final : is_some row.completed_at ≡ is_some row.final_state

abbrev pub IsUnique : List RequestRow → Type 0
IsUnique [] = Unit
IsUnique (row ∷ rows) = (any (has_key row.id row.node_id) rows ≡ false) × IsUnique rows

pub record IsValid (db : Db) : Type 0 where
  pub rows_valid : All IsValidRow db.requests
  pub keys_unique : IsUnique db.requests

-- Appending a row whose key is new.
any-append :
    (id node_id : String) (rows : List RequestRow) (row : RequestRow)
    → any (has_key id node_id) rows ≡ false
    → has_key id node_id row ≡ false
    → any (has_key id node_id) (rows ++ row ∷ []) ≡ false
any-append id node_id [] row h k = ground arith
any-append id node_id (r ∷ rows) row h k = ground (arith, any-append id node_id rows row)

has_key_symm :
    (a b : RequestRow) → has_key a.id a.node_id b ≡ false → has_key b.id b.node_id a ≡ false
has_key_symm a b h = ground (
  arith,
  eq_iff b.id a.id,
  eq_iff a.id b.id,
  eq_iff b.node_id a.node_id,
  eq_iff a.node_id b.node_id,
)

IsUnique-append :
    (rows : List RequestRow) (row : RequestRow)
    → any (has_key row.id row.node_id) rows ≡ false
    → IsUnique rows
    → IsUnique (rows ++ row ∷ [])
IsUnique-append [] row h u = (refl, tt)
IsUnique-append (r ∷ rows) row h u = (
  any-append r.id r.node_id rows row u.0 (has_key_symm row r (ground arith)),
  IsUnique-append rows row (ground arith) u.1,
)

pub record_received-IsValid :
    (request : Request) (ttl_s : ℤ) (now : Fixed) (db : Db)
    → IsValid db
    → IsValid (record_received request ttl_s now db).1
unfolding record_received
record_received-IsValid request ttl_s now db h =
    elim (Bool-cases (any (has_key request.id request.from_) db.requests)) [
      | inl old ↦ rw old h
      | inr new ↦ rw new (record {
        rows_valid =
            All-append IsValidRow db.requests _ h.rows_valid
              (record { known_final = refl; completed_final = refl }, tt);
        keys_unique =
            IsUnique-append db.requests (received_row request ttl_s now) new h.keys_unique;
      })
    ]

module _ (id node_id state : String) (response : Option Response) (code : Option String)
    (now : Fixed) where
  abbrev update : RequestRow → RequestRow
  update = completed id node_id state response code now

  has_key-update : (k n : String) (row : RequestRow) → has_key k n (update row) ≡ has_key k n row
  has_key-update k n row = ground arith

  pub any-map-update :
      (k n : String) (rows : List RequestRow)
      → any (has_key k n) (map update rows) ≡ any (has_key k n) rows
  any-map-update k n [] = refl
  any-map-update k n (row ∷ rows) = rw (has_key-update k n row, any-map-update k n rows)

  id-update : (row : RequestRow) → (update row).id ≡ row.id
  id-update row = ground arith

  node_id-update : (row : RequestRow) → (update row).node_id ≡ row.node_id
  node_id-update row = ground arith

  IsUnique-map-update : (rows : List RequestRow) → IsUnique rows → IsUnique (map update rows)
  IsUnique-map-update [] h = tt
  IsUnique-map-update (row ∷ rows) h = (
    rw (id-update row, node_id-update row, any-map-update row.id row.node_id rows) h.0,
    IsUnique-map-update rows h.1,
  )

  update-IsValidRow :
      final_ok (some state) ≡ true → (row : RequestRow) → IsValidRow row → IsValidRow (update row)
  update-IsValidRow k row h = elim (Bool-cases (has_key id node_id row)) [
    | inl hit ↦ rw hit (record { known_final = k; completed_final = refl })
    | inr miss ↦ rw miss h
  ]

  All-map-update :
      final_ok (some state) ≡ true
      → (rows : List RequestRow) → All IsValidRow rows
      → All IsValidRow (map update rows)
  All-map-update k [] h = tt
  All-map-update k (row ∷ rows) h = (update-IsValidRow k row h.0, All-map-update k rows h.1)

  pub record_completion-IsValid :
      (db : Db)
      → final_ok (some state) ≡ true
      → IsValid db
      → IsValid (record_completion id node_id state response code now db)
  unfolding record_completion
  record_completion-IsValid db k h = record {
    rows_valid = All-map-update k db.requests h.rows_valid;
    keys_unique = IsUnique-map-update db.requests h.keys_unique;
  }

pub record_event-IsValid :
    (id node_id state : String) (detail : Option String) (now : Fixed) (db : Db)
    → IsValid db
    → IsValid (record_event id node_id state detail now db)
unfolding record_event
record_event-IsValid id node_id state detail now db h = record {
  rows_valid = h.rows_valid;
  keys_unique = h.keys_unique;
}

module _ (p : RequestRow → Bool) where
  All-filter : (rows : List RequestRow) → All IsValidRow rows → All IsValidRow (filter p rows)
  All-filter [] h = tt
  All-filter (row ∷ rows) h = ground (arith, All-filter rows h.1)

  any-filter :
      (id node_id : String) (rows : List RequestRow)
      → any (has_key id node_id) rows ≡ false
      → any (has_key id node_id) (filter p rows) ≡ false
  any-filter id node_id [] h = refl
  any-filter id node_id (row ∷ rows) h = ground (arith, any-filter id node_id rows)

  IsUnique-filter : (rows : List RequestRow) → IsUnique rows → IsUnique (filter p rows)
  IsUnique-filter [] h = tt
  IsUnique-filter (row ∷ rows) h =
      ground (arith, IsUnique-filter rows h.1, any-filter row.id row.node_id rows h.0)

pub purge_before-IsValid :
    (cutoff : Fixed) (db : Db) → IsValid db → IsValid (purge_before cutoff db).1
unfolding purge_before
purge_before-IsValid cutoff db h = record {
  rows_valid = All-filter _ db.requests h.rows_valid;
  keys_unique = IsUnique-filter _ db.requests h.keys_unique;
}
