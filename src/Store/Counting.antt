-- ===== src/Store/Counting.antt =====
-- What `counts` reports: each group of final states, and how the groups add up.
use meshcore_rpc_services.Prelude.{
  ℕ, suc, ◌+◌, ◌≡◌, ◌↔◌, refl, ◌∙◌, Bool, true, false, Option, none, some, List, [], ◌∷◌, String,
  ◌==◌, eq_iff, count, length, All, arith, if◌then◌else◌,
}
use meshcore_rpc_services.Lifecycle
use meshcore_rpc_services.Store.Rows.{RequestRow, Db}
use meshcore_rpc_services.Store.Requests.{
  Counts, count_at, count_of, is_key, is_not_null, group_by, bump, put, count_by_final_state,
  is_pending, count_pending, counts,
}
use meshcore_rpc_services.Store.Invariant.{IsValidRow, IsValid, final_ok}

abbrev has_final : String → Option String → Bool
has_final state none = false
has_final state (some s) = s == state

abbrev pub ends_in : String → RequestRow → Bool
ends_in state row = has_final state row.final_state

is_key_iff : (a b : Option String) → (is_key a b ≡ true) ↔ (a ≡ b)
is_key_iff none none = (λ e. refl, λ e. refl)
is_key_iff none (some t) = (λ e. cc, λ e. cc)
is_key_iff (some s) none = (λ e. cc, λ e. cc)
is_key_iff (some s) (some t) = ground (arith, eq_iff s t)

count_at-bump :
    (key k : Option String) (d : Counts)
    → count_at key (bump k d) ≡ (if is_key key k then suc (count_at key d) else count_at key d)
count_at-bump key k [] = ground arith
count_at-bump key k ((l, n) ∷ d) =
    ground (arith, count_at-bump key k d, is_key_iff key k, is_key_iff key l, is_key_iff k l)

count_at-put :
    (key k : Option String) (n : ℕ) (d : Counts)
    → count_at key (put k n d) ≡ (if is_key key k then n else count_at key d)
count_at-put key k n [] = ground arith
count_at-put key k n ((l, m) ∷ d) =
    ground (arith, count_at-put key k n d, is_key_iff key k, is_key_iff key l, is_key_iff k l)

one_more :
    (state : String) (final : Option String) (keys : List (Option String)) (n : ℕ)
    → count_of state (group_by keys) ≡ n
    → count_of state (group_by (if is_not_null final then final ∷ keys else keys))
      ≡ (if has_final state final then suc n else n)
one_more state none keys n h = h
one_more state (some s) keys n h =
    ground (
      arith,
      count_at-bump (some state) (some s) (group_by keys),
      eq_iff s state,
      eq_iff state s,
      h,
    )

-- For each state the query reports the number of rows that end in it.
count_by_final_state_lem :
    (state : String) (rows : List RequestRow)
    → count_of state (count_by_final_state rows) ≡ count (ends_in state) rows
unfolding count_by_final_state
count_by_final_state_lem state [] = refl
count_by_final_state_lem state (row ∷ rows) =
    one_more state row.final_state _ _ (count_by_final_state_lem state rows)

pub counts_of_state :
    (state : String) (db : Db)
    → ("pending" == state) ≡ false
    → count_of state (counts db) ≡ count (ends_in state) db.requests
unfolding counts
counts_of_state state db h = ground (
  arith,
  count_at-put (some state) (some "pending") (count_pending db.requests)
      (count_by_final_state db.requests),
  count_by_final_state_lem state db.requests,
  eq_iff "pending" state,
  eq_iff state "pending",
)

pub counts-pending : (db : Db) → count_of "pending" (counts db) ≡ count is_pending db.requests
unfolding counts count_pending
counts-pending db = ground (
  arith,
  count_at-put (some "pending") (some "pending") (count_pending db.requests)
      (count_by_final_state db.requests),
)

abbrev is_unset : Option String → Bool
is_unset none = true
is_unset (some s) = false

one_group :
    (final : Option String) (a b c : ℕ)
    → final_ok final ≡ true
    → (if is_unset final then suc a else a)
        + (if has_final Lifecycle.completed_ok final then suc b else b)
        + (if has_final Lifecycle.completed_error final then suc c else c)
      ≡ suc (a + b + c)
one_group none a b c h = omega arith
one_group (some s) a b c h = ground (
  arith,
  eq_iff s Lifecycle.completed_ok,
  eq_iff s Lifecycle.completed_error,
  eq_iff Lifecycle.completed_ok s,
  eq_iff Lifecycle.completed_error s,
  eq_iff Lifecycle.completed_ok Lifecycle.completed_error,
)

split_rows :
    (rows : List RequestRow)
    → All IsValidRow rows
    → count is_pending rows
        + count (ends_in Lifecycle.completed_ok) rows
        + count (ends_in Lifecycle.completed_error) rows
      ≡ length rows
split_rows [] h = refl
split_rows (row ∷ rows) h = ground (
  arith,
  one_group row.final_state (count is_pending rows) (count (ends_in Lifecycle.completed_ok) rows)
      (count (ends_in Lifecycle.completed_error) rows),
  h.0.known_final,
  split_rows rows h.1,
)

-- In a valid database the reported numbers of pending, succeeded and failed requests add up to the
-- number of stored requests.
pub counts_total :
    (db : Db)
    → IsValid db
    → count_of "pending" (counts db)
        + count_of Lifecycle.completed_ok (counts db)
        + count_of Lifecycle.completed_error (counts db)
      ≡ length db.requests
counts_total db h =
    rw
      (
        counts-pending db,
        counts_of_state Lifecycle.completed_ok db refl,
        counts_of_state Lifecycle.completed_error db refl,
      )
      (split_rows db.requests h.rows_valid)

not_in_state :
    (state : String) (final : Option String)
    → Lifecycle.is_in state Lifecycle.all_final_states ≡ false
    → final_ok final ≡ true
    → has_final state final ≡ false
not_in_state state none k h = refl
not_in_state state (some s) k h = ground (arith, eq_iff s state)

none_in_state :
    (state : String) (rows : List RequestRow)
    → Lifecycle.is_in state Lifecycle.all_final_states ≡ false
    → All IsValidRow rows
    → count (ends_in state) rows ≡ 0
none_in_state state [] k h = refl
none_in_state state (row ∷ rows) k h =
    rw (not_in_state state row.final_state k h.0.known_final) (none_in_state state rows k h.1)

-- The number of requests that ended in `timeout` is reported as 0 by every valid database: no
-- request ends in that state.
pub counts-timeout : (db : Db) → IsValid db → count_of Lifecycle.timeout (counts db) ≡ 0
counts-timeout db h =
    counts_of_state Lifecycle.timeout db refl
    ∙ none_in_state Lifecycle.timeout db.requests refl h.rows_valid
