-- ===== src/Store/Interleaving.antt =====
-- Duplicate detection under concurrency: requests that are processed at once run their statements in
-- any order, one at a time, since they share a connection.
use meshcore_rpc_services.Prelude.{
  ℕ, suc, ◌≡◌, refl, ap, ◌∙◌, Bool, true, false, ◌&&◌, ◌||◌, Option, List, [], ◌∷◌, ◌++◌, String,
  ◌==◌, any, arith, eq_iff, if◌then◌else◌, Bool-cases, inl, inr, not,
}
use meshcore_rpc_services.Prelude.Int.{ℤ, Fixed}
use meshcore_rpc_services.Prelude.Dict.{Dict}
use meshcore_rpc_services.Schemas.{Request, Response}
use meshcore_rpc_services.Store.Invariant.{any-map-update}
use meshcore_rpc_services.Store.Nodes.{
  mark_node_seen, record_gateway_snapshot, upsert_node_location, upsert_node_battery,
  upsert_base_state,
}
use meshcore_rpc_services.Store.Requests.{
  has_key, received_row, record_received, record_event, record_completion,
}
use meshcore_rpc_services.Store.Rows.{Db, RequestRow, LocationFix}
use meshcore_rpc_services.Value.{Json}

-- The writing methods of `Store` but for the sweep, with the clock's time.
pub data Statement : Type 0 where
  received : Request → ℤ → Fixed → Statement
  event : String → String → String → Option String → Fixed → Statement
  completion : String → String → String → Option Response → Option String → Fixed → Statement
  seen : String → Fixed → Statement
  snapshot : Json → Json → Json → Fixed → Statement
  location : String → LocationFix → Option String → Option ℤ → Option Fixed → Statement
  battery : String → Fixed → Option ℤ → Option Fixed → Option String → Statement
  base : String → Dict Json → Fixed → Statement

unfoldable pub execute : Statement → Db → Db
execute (received request ttl_s now) db = (record_received request ttl_s now db).1
execute (event id node_id state detail now) db = record_event id node_id state detail now db
execute (completion id node_id state response code now) db =
    record_completion id node_id state response code now db
execute (seen node_id ts) db = mark_node_seen node_id ts db
execute (snapshot state detail since now) db = record_gateway_snapshot state detail since now db
execute (location node_id fix source rssi snr) db =
    upsert_node_location node_id fix source rssi snr db
execute (battery node_id ts pct voltage source) db =
    upsert_node_battery node_id ts pct voltage source db
execute (base key value now) db = upsert_base_state key value now db

module _ (id node_id : String) where
  -- The statement receives the request with the key.
  abbrev pub receives : Statement → Bool
  receives (received request ttl_s now) = request.id == id && request.from_ == node_id
  receives _ = false

  -- It answers that the request is fresh.
  abbrev answers_fresh : Statement → Db → Bool
  answers_fresh (received request ttl_s now) db =
      request.id == id && request.from_ == node_id && (record_received request ttl_s now db).0
  answers_fresh _ db = false

  -- How often a request with the key is taken to be fresh.
  unfoldable pub fresh_count : List Statement → Db → ℕ
  fresh_count [] db = 0
  fresh_count (s ∷ statements) db =
      let rest = fresh_count statements (execute s db) in
      if answers_fresh s db then suc rest else rest

  abbrev pub is_stored : Db → Bool
  is_stored db = any (has_key id node_id) db.requests

  any-append :
      (rows : List RequestRow) (row : RequestRow)
      → any (has_key id node_id) (rows ++ row ∷ [])
        ≡ (any (has_key id node_id) rows || has_key id node_id row)
  any-append [] row = ground arith
  any-append (r ∷ rows) row = ground (arith, any-append rows row)

  or_false : (b : Bool) → b ≡ (b || false)
  or_false b = ground arith

  matched :
      (rows : List RequestRow) (k n : String)
      → (k == id && n == node_id) ≡ true
      → any (has_key k n) rows ≡ any (has_key id node_id) rows
  matched rows k n same =
      ap (λ a. any (has_key a n) rows) ((eq_iff k id).0 (ground (arith, same)))
      ∙ ap (λ b. any (has_key id b) rows) ((eq_iff n node_id).0 (ground (arith, same)))

  -- A request with the key is found by its own key.
  found :
      (rows : List RequestRow) (k n : String)
      → any (has_key k n) rows ≡ true
      → any (has_key id node_id) rows ≡ (any (has_key id node_id) rows || (k == id && n == node_id))
  found rows k n h = elim (Bool-cases (k == id && n == node_id)) [
    | inl same ↦ ground (arith, matched rows k n same, h, same)
    | inr other ↦ rw other (or_false (any (has_key id node_id) rows))
  ]

  is_stored-received :
      (request : Request) (ttl_s : ℤ) (now : Fixed) (db : Db)
      → is_stored (record_received request ttl_s now db).1
        ≡ (is_stored db || (request.id == id && request.from_ == node_id))
  unfolding record_received
  is_stored-received request ttl_s now db =
      elim (Bool-cases (any (has_key request.id request.from_) db.requests)) [
        | inl old ↦ rw old (found db.requests request.id request.from_ old)
        | inr new ↦ rw new (any-append db.requests (received_row request ttl_s now))
      ]

  -- A statement stores a request with the key exactly if it receives it.
  is_stored-execute :
      (s : Statement) (db : Db) → is_stored (execute s db) ≡ (is_stored db || receives s)
  unfolding execute record_event record_completion mark_node_seen record_gateway_snapshot
      upsert_node_location upsert_node_battery upsert_base_state
  is_stored-execute (received request ttl_s now) db = is_stored-received request ttl_s now db
  is_stored-execute (completion a b c d e f) db =
      any-map-update a b c d e f id node_id db.requests ∙ or_false (is_stored db)
  is_stored-execute s db = or_false (is_stored db)

  fresh_if_new :
      (request : Request) (ttl_s : ℤ) (now : Fixed) (db : Db)
      → (record_received request ttl_s now db).0
        ≡ not (any (has_key request.id request.from_) db.requests)
  unfolding record_received
  fresh_if_new request ttl_s now db =
      elim (Bool-cases (any (has_key request.id request.from_) db.requests)) [
        | inl old ↦ rw old refl
        | inr new ↦ rw new refl
      ]

  answers_fresh-stored :
      (s : Statement) (db : Db) → answers_fresh s db ≡ (receives s && not (is_stored db))
  answers_fresh-stored (received request ttl_s now) db =
      elim (Bool-cases (request.id == id && request.from_ == node_id)) [
        | inl same ↦ ground (
          arith,
          same,
          fresh_if_new request ttl_s now db,
          matched db.requests request.id request.from_ same,
        )
        | inr other ↦ ground (arith, other)
      ]
  answers_fresh-stored s db = refl

  -- In any order of statements without a sweep, a request is taken to be fresh exactly once if it is
  -- received at all, however often it is received and whatever else runs in between, and never if it
  -- was stored before.
  pub fresh_count_lem :
      (statements : List Statement) (db : Db)
      → fresh_count statements db
        ≡ (if is_stored db then 0 else if any receives statements then 1 else 0)
  unfolding fresh_count
  fresh_count_lem [] db = ground arith
  fresh_count_lem (s ∷ statements) db = ground (
    arith,
    fresh_count_lem statements (execute s db),
    is_stored-execute s db,
    answers_fresh-stored s db,
  )
