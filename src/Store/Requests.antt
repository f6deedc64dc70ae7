-- ===== src/Store/Requests.antt =====
-- The request lifecycle of `Store`: received, events, completion, and the counts.
use meshcore_rpc_services.Prelude.{
  ℕ, suc, Bool, true, false, ◌&&◌, Option, none, some, List, [], ◌∷◌, ◌++◌, String, ◌==◌, any,
  count, filter, map, if◌then◌else◌,
}
use meshcore_rpc_services.Prelude.Int.{ℤ, Fixed}
use meshcore_rpc_services.Lifecycle
use meshcore_rpc_services.Schemas.{Request, Response, dump_request, to_json}
use meshcore_rpc_services.Store.Rows.{RequestRow, EventRow, Db}

-- The primary key (node_id, id): `WHERE id = ? AND node_id = ?`.
abbrev pub has_key : String → String → RequestRow → Bool
has_key request_id node_id row = row.id == request_id && row.node_id == node_id

abbrev pub event : String → String → String → Option String → Fixed → EventRow
event request_id node_id state detail now = record {
  request_id = request_id;
  node_id = node_id;
  state = state;
  detail = detail;
  ts = now;
}

abbrev pub received_row : Request → ℤ → Fixed → RequestRow
received_row request ttl_s now = record {
  id = request.id;
  node_id = request.from_;
  type = request.type;
  ttl_s = ttl_s;
  received_at = now;
  completed_at = none;
  final_state = none;
  error_code = none;
  request_json = dump_request request;
  response_json = none;
}

-- `_sync_record_event`
unfoldable pub record_event : String → String → String → Option String → Fixed → Db → Db
record_event request_id node_id state detail now db = record db {
  request_events = db.request_events ++ event request_id node_id state detail now ∷ [];
}

-- `_sync_record_received`: `INSERT OR IGNORE`, and the row count decides.
unfoldable pub record_received : Request → ℤ → Fixed → Db → Bool × Db
record_received request ttl_s now db =
    if any (has_key request.id request.from_) db.requests then (false, db) else (
      true,
      record db {
        requests = db.requests ++ received_row request ttl_s now ∷ [];
        request_events =
            db.request_events ++ event request.id request.from_ Lifecycle.received none now ∷ [];
      },
    )

-- `UPDATE requests SET ... WHERE id = ? AND node_id = ?` on one row.
abbrev pub completed :
    String → String → String → Option Response → Option String → Fixed → RequestRow → RequestRow
completed request_id node_id final_state response error_code now row =
    if has_key request_id node_id row
    then record row {
      completed_at = some now;
      final_state = some final_state;
      error_code = error_code;
      response_json = elim response [ none ↦ none | some r ↦ some (to_json r) ];
    }
    else row

-- `_sync_record_completion`
unfoldable pub record_completion :
    String → String → String → Option Response → Option String → Fixed → Db → Db
record_completion request_id node_id final_state response error_code now db = record db {
  requests = map (completed request_id node_id final_state response error_code now) db.requests;
}

-- A dict of counts, by a final state or by NULL.
abbrev pub Counts : Type 0
Counts = List (Option String × ℕ)

abbrev pub is_key : Option String → Option String → Bool
is_key none none = true
is_key (some s) (some t) = s == t
is_key _ _ = false

-- `counts.get(key, 0)`
abbrev pub count_at : Option String → Counts → ℕ
count_at key [] = 0
count_at key ((k, n) ∷ d) = let rest = count_at key d in if is_key key k then n else rest

abbrev pub count_of : String → Counts → ℕ
count_of key d = count_at (some key) d

-- One more row in the group of its key.
abbrev pub bump : Option String → Counts → Counts
bump key [] = (key, 1) ∷ []
bump key ((k, n) ∷ groups) =
    let rest = bump key groups in if is_key key k then (k, suc n) ∷ groups else (k, n) ∷ rest

-- `SELECT key, COUNT(*) ... GROUP BY key`, where NULL is a group too.
abbrev pub group_by : List (Option String) → Counts
group_by [] = []
group_by (key ∷ keys) = bump key (group_by keys)

abbrev pub is_not_null : Option String → Bool
is_not_null none = false
is_not_null (some s) = true

abbrev pub is_pending : RequestRow → Bool
is_pending row = elim row.final_state [ none ↦ true | some _ ↦ false ]

-- `SELECT final_state, COUNT(*) ... WHERE final_state IS NOT NULL GROUP BY final_state`
unfoldable pub count_by_final_state : List RequestRow → Counts
count_by_final_state rows = group_by (filter is_not_null (map RequestRow.final_state rows))

-- `SELECT COUNT(*) FROM requests WHERE final_state IS NULL`
unfoldable pub count_pending : List RequestRow → ℕ
count_pending rows = count is_pending rows

abbrev pub put : Option String → ℕ → Counts → Counts
put key n [] = (key, n) ∷ []
put key n ((k, m) ∷ groups) =
    let rest = put key n groups in if is_key key k then (k, n) ∷ groups else (k, m) ∷ rest

-- `{**by_state, "pending": pending}`
abbrev pub with_pending : ℕ → Counts → Counts
with_pending pending by_state = put (some "pending") pending by_state

unfoldable pub counts : Db → Counts
counts db = with_pending (count_pending db.requests) (count_by_final_state db.requests)
