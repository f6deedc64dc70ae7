-- ===== src/Store/Purging.antt =====
-- What a sweep removes, and what it keeps.
use meshcore_rpc_services.Prelude.{
  ◌+◌, ◌≡◌, refl, Bool, true, false, not, Option, none, some, List, [], ◌∷◌, String, ◌==◌, count,
  length, eq_iff, filter, find, any, All, arith, if◌then◌else◌,
}
use meshcore_rpc_services.Prelude.Int.{Fixed}
use meshcore_rpc_services.Store.Rows.{RequestRow, EventRow, Db}
use meshcore_rpc_services.Store.Requests.{has_key, is_pending}
use meshcore_rpc_services.Store.Retention.{is_expired, is_orphan, kept_requests, purge_before}
use meshcore_rpc_services.Store.Invariant.{IsValidRow, IsUnique, IsValid}

module _ {A : Type 0} (p : A → Bool) where
  count-filter-not : (xs : List A) → count p xs + length (filter (λ x. not (p x)) xs) ≡ length xs
  count-filter-not [] = refl
  count-filter-not (x ∷ xs) = ground (arith, count-filter-not xs)

-- A filter that keeps what passes `q` leaves the test and the number of those as they are.
module _ {A : Type 0} (q k : A → Bool) (h : (x : A) → q x ≡ true → k x ≡ true) where
  filter-filter_keep : (xs : List A) → filter q (filter k xs) ≡ filter q xs
  filter-filter_keep [] = refl
  filter-filter_keep (x ∷ xs) = ground (arith, h x, filter-filter_keep xs)

pending_kept :
    (cutoff : Fixed) (row : RequestRow)
    → IsValidRow row
    → is_pending row ≡ true
    → is_expired cutoff row ≡ false
pending_kept cutoff row h p = ground (arith, h.completed_final)

count-pending_kept :
    (cutoff : Fixed) (rows : List RequestRow)
    → All IsValidRow rows
    → count is_pending (filter (λ row. not (is_expired cutoff row)) rows) ≡ count is_pending rows
count-pending_kept cutoff [] h = refl
count-pending_kept cutoff (row ∷ rows) h =
    ground (arith, pending_kept cutoff row h.0, count-pending_kept cutoff rows h.1)

-- In a valid database the number that a sweep returns is the number of rows that it took out of
-- `requests`, and it takes out no pending one.
pub purge_before-counts :
    (cutoff : Fixed) (db : Db)
    → IsValid db
    → ((purge_before cutoff db).0 + length (purge_before cutoff db).1.requests ≡ length db.requests)
      × (count is_pending (purge_before cutoff db).1.requests ≡ count is_pending db.requests)
unfolding purge_before
purge_before-counts cutoff db h = (
  count-filter-not (is_expired cutoff) db.requests,
  count-pending_kept cutoff db.requests h.rows_valid,
)

-- What a lookup by key finds after a sweep: what it found before, unless that has expired.
abbrev pub unless_expired : Fixed → Option RequestRow → Option RequestRow
unless_expired cutoff none = none
unless_expired cutoff (some row) = if is_expired cutoff row then none else some row

module _ (cutoff : Fixed) (id node_id : String) where
  find-filter-none :
      (rows : List RequestRow)
      → any (has_key id node_id) rows ≡ false
      → find (has_key id node_id) (filter (λ row. not (is_expired cutoff row)) rows) ≡ none
  find-filter-none [] h = refl
  find-filter-none (row ∷ rows) h = ground (arith, find-filter-none rows)

  -- Two rows with the key of a third have the same key.
  same_key :
      (row : RequestRow) (rows : List RequestRow)
      → has_key id node_id row ≡ true
      → any (has_key row.id row.node_id) rows ≡ false
      → any (has_key id node_id) rows ≡ false
  same_key row rows k h =
      let e : row.id ≡ id = (eq_iff row.id id).0 (ground arith) in
      let f : row.node_id ≡ node_id = (eq_iff row.node_id node_id).0 (ground arith) in
      rw (e, f) at h

  find-filter :
      (rows : List RequestRow)
      → IsUnique rows
      → find (has_key id node_id) (filter (λ row. not (is_expired cutoff row)) rows)
        ≡ unless_expired cutoff (find (has_key id node_id) rows)
  find-filter [] u = refl
  find-filter (row ∷ rows) u =
      ground (arith, find-filter rows u.1, find-filter-none rows, same_key row rows)

-- In a valid database a lookup by key finds after a sweep exactly what it found before, unless that
-- row was completed before the cutoff.
pub find-purge_before :
    (cutoff : Fixed) (id node_id : String) (db : Db)
    → IsValid db
    → find (has_key id node_id) (purge_before cutoff db).1.requests
      ≡ unless_expired cutoff (find (has_key id node_id) db.requests)
unfolding purge_before
find-purge_before cutoff id node_id db h = find-filter cutoff id node_id db.requests h.keys_unique

used_kept :
    (cutoff : Fixed) (id : String) (kept : List RequestRow)
    → any (λ row. row.id == id) kept ≡ true
    → (e : EventRow) → (e.request_id == id) ≡ true
    → not (is_orphan cutoff kept e) ≡ true
used_kept cutoff id kept h e same = rw ((eq_iff e.request_id id).0 same) (ground (arith, h))

-- The events of an id that is still used by a request of any node stay, in their order, whatever
-- their age.
pub purge_before-events :
    (cutoff : Fixed) (id : String) (db : Db)
    → any (λ row. row.id == id) (purge_before cutoff db).1.requests ≡ true
    → filter (λ e. e.request_id == id) (purge_before cutoff db).1.request_events
      ≡ filter (λ e. e.request_id == id) db.request_events
unfolding purge_before
purge_before-events cutoff id db h =
    filter-filter_keep (λ e. e.request_id == id)
      (λ e. not (is_orphan cutoff (kept_requests cutoff db) e))
      (used_kept cutoff id (kept_requests cutoff db) h) db.request_events
