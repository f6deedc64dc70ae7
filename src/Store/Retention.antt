-- ===== src/Store/Retention.antt =====
-- `Store._sync_purge_before`.
use meshcore_rpc_services.Prelude.{
  ℕ, Bool, false, not, ◌&&◌, Option, none, some, List, ◌==◌, any, count, filter,
}
use meshcore_rpc_services.Prelude.Int.{Fixed, ltb_ℤ}
use meshcore_rpc_services.Store.Rows.{RequestRow, EventRow, Db}

abbrev completed_before : Option Fixed → Fixed → Bool
completed_before none cutoff_ts = false
completed_before (some t) cutoff_ts = ltb_ℤ t cutoff_ts

-- `completed_at IS NOT NULL AND completed_at < ?`
abbrev pub is_expired : Fixed → RequestRow → Bool
is_expired cutoff_ts row = completed_before row.completed_at cutoff_ts

-- `ts < ? AND request_id NOT IN (SELECT id FROM requests)`
abbrev pub is_orphan : Fixed → List RequestRow → EventRow → Bool
is_orphan cutoff_ts requests e =
    ltb_ℤ e.ts cutoff_ts && not (any (λ row. row.id == e.request_id) requests)

abbrev pub kept_requests : Fixed → Db → List RequestRow
kept_requests cutoff_ts db = filter (λ row. not (is_expired cutoff_ts row)) db.requests

-- The number of deleted requests, and the database after the three statements.
unfoldable pub purge_before : Fixed → Db → ℕ × Db
purge_before cutoff_ts db = (
  count (is_expired cutoff_ts) db.requests,
  record db {
    requests = kept_requests cutoff_ts db;
    request_events =
        filter (λ e. not (is_orphan cutoff_ts (kept_requests cutoff_ts db) e)) db.request_events;
    gateway_snapshots = filter (λ s. not (ltb_ℤ s.ts cutoff_ts)) db.gateway_snapshots;
  },
)
