-- ===== src/Store/Nodes.antt =====
-- The registry of nodes, their locations and batteries, the base state, and gateway snapshots.
use meshcore_rpc_services.Prelude.{Option, none, some, [], ◌∷◌, ◌++◌, String}
use meshcore_rpc_services.Prelude.Int.{ℤ, Fixed, max_ℤ}
use meshcore_rpc_services.Prelude.Dict.{Dict, lookup, insert}
use meshcore_rpc_services.Value.{Json, null}
use meshcore_rpc_services.Store.Rows.{LocationFix, LocationRow, BatteryRow, BaseRow, Db}

-- `ON CONFLICT(node_id) DO UPDATE SET last_seen = MAX(last_seen, excluded.last_seen)`
abbrev pub latest : Option Fixed → Fixed → Fixed
latest none ts = ts
latest (some last_seen) ts = max_ℤ last_seen ts

-- `_sync_mark_node_seen`
unfoldable pub mark_node_seen : String → Fixed → Db → Db
mark_node_seen node_id ts db = record db {
  nodes = insert node_id (latest (lookup node_id db.nodes) ts) db.nodes;
}

-- `_sync_get_last_seen`
unfoldable pub get_last_seen : String → Db → Option Fixed
get_last_seen node_id db = lookup node_id db.nodes

-- `_sync_record_gateway_snapshot`
unfoldable pub record_gateway_snapshot : Json → Json → Json → Fixed → Db → Db
record_gateway_snapshot state detail since now db = record db {
  gateway_snapshots =
      db.gateway_snapshots
      ++ record {
        ts = now;
        status = state;
        health = null;
        state = state;
        detail = detail;
        since_ts = since;
      }
        ∷ [];
}

-- `_sync_upsert_node_location`
unfoldable pub upsert_node_location :
    String → LocationFix → Option String → Option ℤ → Option Fixed → Db → Db
upsert_node_location node_id fix source rssi snr db = record db {
  node_locations =
      insert node_id (record { located = fix; source = source; rssi = rssi; snr = snr })
        db.node_locations;
}

-- `_sync_get_node_location`
unfoldable pub get_node_location : String → Db → Option LocationRow
get_node_location node_id db = lookup node_id db.node_locations

-- `_sync_upsert_node_battery`
unfoldable pub upsert_node_battery :
    String → Fixed → Option ℤ → Option Fixed → Option String → Db → Db
upsert_node_battery node_id ts pct voltage source db = record db {
  node_battery =
      insert node_id (record { pct = pct; voltage = voltage; ts = ts; source = source })
        db.node_battery;
}

-- `_sync_get_node_battery`
unfoldable pub get_node_battery : String → Db → Option BatteryRow
get_node_battery node_id db = lookup node_id db.node_battery

-- `_sync_upsert_base_state`
unfoldable pub upsert_base_state : String → Dict Json → Fixed → Db → Db
upsert_base_state key value now db = record db {
  base_state = insert key (record { value_json = value; ts = now }) db.base_state;
}

abbrev pub stored_value : Option BaseRow → Option (Dict Json)
stored_value none = none
stored_value (some row) = some row.value_json

-- `_sync_get_base_state`
unfoldable pub get_base_state : String → Db → Option (Dict Json)
get_base_state key db = stored_value (lookup key db.base_state)
