-- ===== src/State.antt =====
-- meshcore_rpc_services/state.py: the per-node state aggregator.
pub mod Keeping
pub mod Online
pub mod Running
use meshcore_rpc_services.Prelude.{
  ℕ, Bool, true, false, not, ◌||◌, Option, none, some, List, [], ◌∷◌, String, is_some, or_else,
  filter, if◌then◌else◌,
}
use meshcore_rpc_services.Prelude.Int.{ℤ, pos, Fixed, of_int, age_of, ltb_ℤ, ◌-ℤ◌}
use meshcore_rpc_services.Prelude.Dict.{Dict, lookup, insert}
use meshcore_rpc_services.Topics
use meshcore_rpc_services.Store.Rows.{LocationFix, LocationRow, BatteryRow}
use meshcore_rpc_services.Runtime.{World, Radio, M, pure, gets, modify, time, ◌>>=◌, ◌>>◌}
use meshcore_rpc_services.Runtime.Calls
use meshcore_rpc_services.Value.{
  Json, bool, int, float, str, obj, of_entries, opt_float, opt_int, opt_str, is_null,
}

abbrev pub online_threshold_s : ℤ
online_threshold_s = pos 300

-- The dict that `get_node_state` returns: its keys are fixed.
pub record NodeState : Type 0 where
  pub id : String
  pub last_seen : Fixed
  pub last_seen_age_s : ℤ
  pub online : Bool
  pub loc_ts : Option Fixed
  pub bat_pct : Option ℤ
  pub rssi : Option ℤ
  pub snr : Option Fixed

abbrev pub node_state_entries : NodeState → Dict Json
node_state_entries st =
    ("id", str st.id)
    ∷ ("last_seen", float st.last_seen)
    ∷ ("last_seen_age_s", int st.last_seen_age_s)
    ∷ ("online", bool st.online)
    ∷ ("loc_ts", opt_float st.loc_ts)
    ∷ ("bat_pct", opt_int st.bat_pct)
    ∷ ("rssi", opt_int st.rssi)
    ∷ ("snr", opt_float st.snr)
    ∷ []

-- `_compact_json`, up to the text: the entries that are not None.
unfoldable pub compact_json : Dict Json → Json
compact_json d = obj (of_entries (filter (λ e. not (is_null e.1)) d))

abbrev location_ts : Option LocationRow → Option Fixed
location_ts none = none
location_ts (some row) = some row.ts

abbrev battery_pct : Option BatteryRow → Option ℤ
battery_pct none = none
battery_pct (some row) = row.pct

abbrev radio_rssi : Option Radio → Option ℤ
radio_rssi none = none
radio_rssi (some r) = r.rssi

abbrev radio_snr : Option Radio → Option Fixed
radio_snr none = none
radio_snr (some r) = r.snr

abbrev pub is_online : Fixed → Fixed → Bool
is_online now last_seen = ltb_ℤ (now -ℤ last_seen) (of_int online_threshold_s)

abbrev pub node_state :
    String → Fixed → Option LocationRow → Option BatteryRow → Option Radio → Fixed → NodeState
node_state node_id last_seen loc bat radio now = record {
  id = node_id;
  last_seen = last_seen;
  last_seen_age_s = age_of now last_seen;
  online = is_online now last_seen;
  loc_ts = location_ts loc;
  bat_pct = battery_pct bat;
  rssi = radio_rssi radio;
  snr = radio_snr radio;
}

unfoldable pub seen_state : String → Option Fixed → M (Option NodeState)
seen_state node_id none = pure none
seen_state node_id (some last_seen) = do
  loc ← Calls.get_node_location node_id
  bat ← Calls.get_node_battery node_id
  radio ← gets (λ w. lookup node_id w.last_radio)
  now ← time
  pure (some (node_state node_id last_seen loc bat radio now))

unfoldable pub get_node_state : String → M (Option NodeState)
unfolding seen_state
get_node_state node_id = do last_seen ← Calls.get_last_seen node_id; seen_state node_id last_seen

unfoldable pub publish_state : String → Option NodeState → M Unit
publish_state node_id none = pure tt
publish_state node_id (some st) =
    Calls.publish (Topics.node_state_topic node_id) (compact_json (node_state_entries st)) true

unfoldable pub republish_state : String → M Unit
unfolding publish_state
republish_state node_id = do st ← get_node_state node_id; publish_state node_id st

-- The update of `_last_radio`, when the reception carried any signal quality.
unfoldable pub note_radio : String → Fixed → Option ℤ → Option Fixed → M Unit
note_radio node_id ts rssi snr =
    if is_some rssi || is_some snr
    then modify (λ w. record w {
      last_radio = insert node_id (record { rssi = rssi; snr = snr; ts = ts }) w.last_radio;
    })
    else pure tt

unfoldable pub apply_seen : String → Fixed → Option ℤ → Option Fixed → M Unit
apply_seen node_id ts rssi snr = do
  Calls.mark_node_seen node_id ts
  note_radio node_id ts rssi snr
  republish_state node_id

abbrev pub location_entries : String → LocationFix → String → Option ℤ → Option Fixed → Dict Json
location_entries node_id fix source rssi snr =
    ("id", str node_id)
    ∷ ("lat", float fix.lat)
    ∷ ("lon", float fix.lon)
    ∷ ("alt", opt_float fix.alt)
    ∷ ("acc", opt_float fix.acc)
    ∷ ("fix", opt_int fix.fix)
    ∷ ("spd", opt_float fix.spd)
    ∷ ("hdg", opt_float fix.hdg)
    ∷ ("ts", float fix.ts)
    ∷ ("source", str source)
    ∷ ("rssi", opt_int rssi)
    ∷ ("snr", opt_float snr)
    ∷ []

unfoldable pub apply_location : String → LocationFix → String → Option ℤ → Option Fixed → M Unit
apply_location node_id fix source rssi snr = do
  Calls.upsert_node_location node_id fix (some source) rssi snr
  Calls.mark_node_seen node_id fix.ts
  note_radio node_id fix.ts rssi snr
  Calls.publish (Topics.node_location_topic node_id)
      (compact_json (location_entries node_id fix source rssi snr)) true
  republish_state node_id

abbrev battery_entries : String → Option ℤ → Option Fixed → Fixed → String → Dict Json
battery_entries node_id pct voltage ts source =
    ("id", str node_id)
    ∷ ("pct", opt_int pct)
    ∷ ("v", opt_float voltage)
    ∷ ("ts", float ts)
    ∷ ("source", str source)
    ∷ []

unfoldable pub apply_battery : String → Fixed → Option ℤ → Option Fixed → String → M Unit
apply_battery node_id ts pct voltage source = do
  Calls.upsert_node_battery node_id ts pct voltage (some source)
  Calls.mark_node_seen node_id ts
  Calls.publish (Topics.node_battery_topic node_id)
      (compact_json (battery_entries node_id pct voltage ts source)) true
  republish_state node_id

abbrev pub base_entries : LocationFix → String → Dict Json
base_entries fix source =
    ("lat", float fix.lat)
    ∷ ("lon", float fix.lon)
    ∷ ("alt", opt_float fix.alt)
    ∷ ("acc", opt_float fix.acc)
    ∷ ("fix", opt_int fix.fix)
    ∷ ("ts", float fix.ts)
    ∷ ("source", str source)
    ∷ []

unfoldable pub apply_base_location : LocationFix → String → M Unit
apply_base_location fix source = do
  Calls.upsert_base_state "location" (base_entries fix source)
  Calls.publish Topics.base_location (compact_json (base_entries fix source)) true

unfoldable pub get_base_location : M (Option (Dict Json))
get_base_location = Calls.get_base_state "location"
