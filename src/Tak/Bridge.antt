-- ===== src/Tak/Bridge.antt =====
-- meshcore_rpc_services/tak/bridge.py: `Bridge`. A handler runs with no other task in between, so its
-- readings of the clock are one argument, `now`.
pub mod Messages
pub mod Heartbeat
pub mod Evicting
pub mod Invariant
pub mod Tracking
pub mod Offline
pub mod Reachable
pub mod Delivered
pub mod Uids
pub mod Looping
pub mod Republishing
use meshcore_rpc_services.Prelude.{
  ℕ, Bool, true, false, not, ◌&&◌, ◌||◌, Option, none, some, List, [], ◌∷◌, ◌++◌, String, ◌==◌,
  format, take_chars, filter, map, or_else, if◌then◌else◌, is_some,
}
use meshcore_rpc_services.Prelude.Int.{ℤ, pos, Fixed, of_int, trunc, show_int, leb_ℤ, ◌-ℤ◌}
use meshcore_rpc_services.Prelude.Dict.{Dict, lookup, contains, insert, erase}
use meshcore_rpc_services.Prelude.Split.{ends_with}
use meshcore_rpc_services.Runtime.{Result, ok, err, crash}
use meshcore_rpc_services.Topics
use meshcore_rpc_services.Value.{Json, bool, float, str, obj, entries, number?, is_null}
use meshcore_rpc_services.Tak.Cot.{Writer, Event, build_cot, build_drop_cot, is_datetime}
use meshcore_rpc_services.Tak.NodeTopic.{base_key, node_prefix_slash, extract_node_id, key_for}
use meshcore_rpc_services.Tak.Sink.{queue_cap, send}
use text.Mathlib.Text.{starts_with}

-- The part of `TakBridgeConfig` that shapes events. The template stands for what
-- `callsign_template.format(id=...)` gives, or raises.
pub record TakBridgeConfig : Type 0 where
  pub callsign_template : String → Result String
  pub field_node_cot_type : String
  pub base_cot_type : String
  pub stale_after_s : ℤ
  pub remove_after_offline_s : ℤ

-- `queue` is that of the bridge's `TakSink`.
pub record Bridge : Type 0 where
  pub state : Dict (Dict Json)
  pub offline_since : Dict Fixed
  pub queue : List String

-- `cur.update({k: v for k, v in data.items() if v is not None})`
abbrev pub update : Dict Json → Dict Json → Dict Json
update [] cur = cur
update ((k, v) ∷ d) cur = update d (if is_null v then cur else insert k v cur)

abbrev pub merged : Dict Json → String → Option (Dict Json) → Fixed → Dict Json
merged d kind cur now =
    insert "_updated" (float now) (update d (or_else cur (("_kind", str kind) ∷ [])))

-- `_merge_state`
unfoldable pub merge_state : String → Dict Json → String → Fixed → Bridge → Bridge
merge_state key d kind now b = record b {
  state = insert key (merged d kind (lookup key b.state) now) b.state;
}

abbrev pub track : Option Json → String → Fixed → Dict Fixed → Dict Fixed
track (some (bool true)) node_id now since = erase node_id since
track (some (bool false)) node_id now since =
    if contains node_id since then since else insert node_id now since
track _ node_id now since = since

-- `_update_offline_tracking`
unfoldable pub update_offline_tracking : String → Dict Json → Fixed → Bridge → Bridge
update_offline_tracking node_id d now b = record b {
  offline_since = track (lookup "online" d) node_id now b.offline_since;
}

abbrev pub enqueue : String → Bridge → Bridge
enqueue xml b = record b { queue = send queue_cap xml b.queue }

abbrev pub emit : Result (Option String) → Bridge → Result Unit × Bridge
emit (ok none) b = (ok tt, b)
emit (ok (some xml)) b = (ok tt, enqueue xml b)
emit (err e) b = (err e, b)

abbrev pub as_event : Result String → Result (Option String)
as_event (ok xml) = ok (some xml)
as_event (err e) = err e

-- What follows a call, unless that raised.
abbrev pub go_on : Result Unit → Bridge → (Bridge → Result Unit × Bridge) → Result Unit × Bridge
go_on (ok u) b rest = rest b
go_on (err e) b rest = (err e, b)

-- The uid of a key's event.
abbrev pub uid_of : String → String
uid_of key = format ("meshcore." ∷ (if key == base_key then "base" else key) ∷ [])

module _ (writer : Writer) (cfg : TakBridgeConfig) where
  abbrev pub cot_type_of : String → String
  cot_type_of key = if key == base_key then cfg.base_cot_type else cfg.field_node_cot_type

  abbrev pub callsign_of : String → Result String
  callsign_of key =
      if key == base_key then ok "MC-base" else cfg.callsign_template (take_chars 6 key)

  -- The time of the last known position, which has to be a datetime, or else the clock's.
  abbrev pub time_of : Option Fixed → Fixed → Result Fixed
  time_of none now = ok now
  time_of (some ts) now = if is_datetime ts then ok ts else err (crash "ValueError")

  abbrev remark : String → Option Fixed → (Fixed → String) → String → List String
  remark label none text unit = []
  remark label (some x) text unit = format (label ∷ text x ∷ unit ∷ []) ∷ []

  abbrev remarks_parts : Dict Json → List String
  remarks_parts r =
      remark "last_seen_age=" (number? (lookup "last_seen_age_s" r)) (λ x. show_int (trunc x)) "s"
      ++ (remark "battery=" (number? (lookup "bat_pct" r)) (λ x. show_int (trunc x)) "%"
          ++ (remark "rssi=" (number? (lookup "rssi" r)) (λ x. show_int (trunc x)) ""
              ++ remark "snr=" (number? (lookup "snr" r)) (writer.float_text 1) ""))

  -- `"; ".join(parts)`
  abbrev join : List String → String
  join [] = ""
  join (s ∷ []) = s
  join (s ∷ t ∷ rest) = format (s ∷ "; " ∷ join (t ∷ rest) ∷ [])

  abbrev remarks_of : List String → Option String
  remarks_of [] = none
  remarks_of (s ∷ rest) = some (join (s ∷ rest))

  abbrev pub event_of : String → Dict Json → Fixed → Fixed → Fixed → String → Event
  event_of key r lat lon time_dt callsign = record {
    uid = uid_of key;
    cot_type = cot_type_of key;
    lat = lat;
    lon = lon;
    time_dt = time_dt;
    stale_after_s = of_int cfg.stale_after_s;
    callsign = some callsign;
    alt_m = number? (lookup "alt" r);
    speed_mps = number? (lookup "spd" r);
    course_deg = number? (lookup "hdg" r);
    accuracy_m = number? (lookup "acc" r);
    remarks = if key == base_key then none else remarks_of (remarks_parts r);
  }

  abbrev pub timed :
      String → Dict Json → Fixed → Fixed → String → Result Fixed → Result (Option String)
  timed key r lat lon callsign (err e) = err e
  timed key r lat lon callsign (ok t) =
      as_event (build_cot writer (event_of key r lat lon t callsign))

  abbrev pub called :
      String → Dict Json → Fixed → Fixed → Fixed → Result String → Result (Option String)
  called key r lat lon now (err e) = err e
  called key r lat lon now (ok callsign) =
      timed key r lat lon callsign (time_of (number? (lookup "ts" r)) now)

  abbrev pub positioned :
      String → Dict Json → Fixed → Option Fixed → Option Fixed → Result (Option String)
  positioned key r now (some lat) (some lon) = called key r lat lon now (callsign_of key)
  positioned key r now _ _ = ok none

  -- The event for a record: none while there is no usable position.
  unfoldable pub event_for : String → Fixed → Option (Dict Json) → Result (Option String)
  event_for key now none = ok none
  event_for key now (some []) = ok none
  event_for key now (some (e ∷ r)) =
      positioned key (e ∷ r) now (number? (lookup "lat" (e ∷ r))) (number? (lookup "lon" (e ∷ r)))

  -- `_publish_one`
  unfoldable pub publish_one : String → Fixed → Bridge → Result Unit × Bridge
  publish_one key now b = emit (event_for key now (lookup key b.state)) b

  unfoldable pub publish_keys : List String → Fixed → Bridge → Result Unit × Bridge
  publish_keys [] now b = (ok tt, b)
  publish_keys (key ∷ keys) now b =
      let (r, b') = publish_one key now b in go_on r b' (publish_keys keys now)

  -- `_republish_all`
  unfoldable pub republish_all : Fixed → Bridge → Result Unit × Bridge
  republish_all now b = publish_keys (map (λ e. e.0) b.state) now b
