-- ===== src/Runtime/Calls.antt =====
-- The awaited methods of `Store` (meshcore_rpc_services/persistence/sqlite.py), which read the clock
-- in their thread, and `MqttBus.publish` of meshcore_rpc_services/transport/bus.py.
use meshcore_rpc_services.Prelude.{
  ℕ, Bool, ◌&&◌, Option, none, some, List, [], ◌∷◌, ◌++◌, String, if◌then◌else◌,
}
use meshcore_rpc_services.Prelude.Int.{ℤ, pos, negsuc, Fixed, leb_ℤ}
use meshcore_rpc_services.Prelude.Dict.{Dict}
use meshcore_rpc_services.Schemas.{Request, Response}
use meshcore_rpc_services.Store.Nodes
use meshcore_rpc_services.Store.Requests
use meshcore_rpc_services.Store.Retention
use meshcore_rpc_services.Store.Rows.{LocationFix, LocationRow, BatteryRow, Db}
use meshcore_rpc_services.Runtime.{M, Message, crash, pure, raise, gets, perform, ◌>>=◌}
use meshcore_rpc_services.Value.{Json}

-- `await asyncio.to_thread(statement)`, for a statement that changes the tables.
unfoldable pub write : (Fixed → Db → Db) → M Unit
write statement = perform (λ w. (tt, record w { db = statement w.clock w.db }))

-- The same, for a statement that reads them.
unfoldable pub query : {A : Type 0} → (Db → A) → M A
query statement = perform (λ w. (statement w.db, w))

unfoldable pub record_received : Request → ℤ → M Bool
record_received request ttl_s = perform (λ w.
    let (fresh, db') = Requests.record_received request ttl_s w.clock w.db in
    (fresh, record w { db = db' }))

unfoldable pub record_event : String → String → String → Option String → M Unit
unfolding write
record_event request_id node_id state detail =
    write (Requests.record_event request_id node_id state detail)

unfoldable pub record_completion :
    String → String → String → Option Response → Option String → M Unit
unfolding write
record_completion request_id node_id final_state response error_code =
    write (Requests.record_completion request_id node_id final_state response error_code)

-- `counts` is two statements.
unfoldable pub counts : M Requests.Counts
unfolding query
counts = do
  by_state ← query (λ db. Requests.count_by_final_state db.requests)
  pending ← query (λ db. Requests.count_pending db.requests)
  pure (Requests.with_pending pending by_state)

unfoldable pub mark_node_seen : String → Fixed → M Unit
unfolding write
mark_node_seen node_id ts = write (λ now. Nodes.mark_node_seen node_id ts)

unfoldable pub get_last_seen : String → M (Option Fixed)
unfolding query
get_last_seen node_id = query (Nodes.get_last_seen node_id)

-- SQLite's integers have 64 bits.
abbrev in_64_bits : ℤ → Bool
in_64_bits z = leb_ℤ (negsuc 9223372036854775807) z && leb_ℤ z (pos 9223372036854775807)

-- SQLite takes no list and no dict for a cell, and no larger integer.
abbrev binding_error : Json → Option String
binding_error (Json.arr xs) = some "InterfaceError"
binding_error (Json.obj fs) = some "InterfaceError"
binding_error (Json.int z) = if in_64_bits z then none else some "OverflowError"
binding_error _ = none

abbrev first_error : List (Option String) → Option String
first_error [] = none
first_error (none ∷ rest) = first_error rest
first_error (some name ∷ rest) = some name

abbrev pub unless_error : Option String → M Unit → M Unit
unless_error none m = m
unless_error (some name) m = raise (crash name)

unfoldable pub record_gateway_snapshot : Json → Json → Json → M Unit
unfolding write
record_gateway_snapshot state detail since =
    unless_error
      (first_error (binding_error state ∷ binding_error detail ∷ binding_error since ∷ []))
      (write (Nodes.record_gateway_snapshot state detail since))

unfoldable pub upsert_node_location :
    String → LocationFix → Option String → Option ℤ → Option Fixed → M Unit
unfolding write
upsert_node_location node_id fix source rssi snr =
    write (λ now. Nodes.upsert_node_location node_id fix source rssi snr)

unfoldable pub get_node_location : String → M (Option LocationRow)
unfolding query
get_node_location node_id = query (Nodes.get_node_location node_id)

unfoldable pub upsert_node_battery :
    String → Fixed → Option ℤ → Option Fixed → Option String → M Unit
unfolding write
upsert_node_battery node_id ts pct voltage source =
    write (λ now. Nodes.upsert_node_battery node_id ts pct voltage source)

unfoldable pub get_node_battery : String → M (Option BatteryRow)
unfolding query
get_node_battery node_id = query (Nodes.get_node_battery node_id)

unfoldable pub upsert_base_state : String → Dict Json → M Unit
unfolding write
upsert_base_state key value = write (Nodes.upsert_base_state key value)

unfoldable pub get_base_state : String → M (Option (Dict Json))
unfolding query
get_base_state key = query (Nodes.get_base_state key)

unfoldable pub purge_before : Fixed → M ℕ
purge_before cutoff_ts = perform (λ w.
    let (deleted, db') = Retention.purge_before cutoff_ts w.db in (deleted, record w { db = db' }))

abbrev pub message : String → Json → Bool → Message
message topic payload retain = record { topic = topic; payload = payload; retain = retain }

unfoldable pub send : Message → M Unit
send m = perform (λ w. (tt, record w { published = w.published ++ m ∷ [] }))

-- `MqttBus.publish`
unfoldable pub publish : String → Json → Bool → M Unit
unfolding send
publish topic payload retain = do
  connected ← gets (λ w. w.connected)
  if connected then send (message topic payload retain) else raise (crash "RuntimeError")
