-- ===== src/Store/Rows.antt =====
-- The rows of schema.sql, and `LocationFix` of meshcore_rpc_services/state.py.
use meshcore_rpc_services.Prelude.{Option, List, [], String}
use meshcore_rpc_services.Prelude.Int.{ℤ, Fixed}
use meshcore_rpc_services.Prelude.Dict.{Dict}
use meshcore_rpc_services.Value.{Json}

pub record RequestRow : Type 0 where
  pub id : String
  pub node_id : String
  pub type : String
  pub ttl_s : ℤ
  pub received_at : Fixed
  pub completed_at : Option Fixed
  pub final_state : Option String
  pub error_code : Option String
  pub request_json : Json
  pub response_json : Option Json

pub record EventRow : Type 0 where
  pub request_id : String
  pub node_id : String
  pub state : String
  pub detail : Option String
  pub ts : Fixed

-- The cells of a snapshot hold whatever the gateway sent.
pub record SnapshotRow : Type 0 where
  pub ts : Fixed
  pub status : Json
  pub health : Json
  pub state : Json
  pub detail : Json
  pub since_ts : Json

pub record LocationFix : Type 0 where
  pub lat : Fixed
  pub lon : Fixed
  pub ts : Fixed
  pub alt : Option Fixed
  pub acc : Option Fixed
  pub fix : Option ℤ
  pub spd : Option Fixed
  pub hdg : Option Fixed

-- A row of node_locations without its key: the columns of the fix, and three more.
pub record LocationRow : Type 0 where
  pub located : LocationFix
  pub open located use *
  pub source : Option String
  pub rssi : Option ℤ
  pub snr : Option Fixed

pub record BatteryRow : Type 0 where
  pub pct : Option ℤ
  pub voltage : Option Fixed
  pub ts : Fixed
  pub source : Option String

pub record BaseRow : Type 0 where
  pub value_json : Dict Json
  pub ts : Fixed

-- The tables whose primary key is one text are dicts.
pub record Db : Type 0 where
  pub requests : List RequestRow
  pub request_events : List EventRow
  pub gateway_snapshots : List SnapshotRow
  pub nodes : Dict Fixed
  pub node_locations : Dict LocationRow
  pub node_battery : Dict BatteryRow
  pub base_state : Dict BaseRow

-- The tables of a new database.
abbrev pub empty : Db
empty = record {
  requests = [];
  request_events = [];
  gateway_snapshots = [];
  nodes = [];
  node_locations = [];
  node_battery = [];
  base_state = [];
}
