-- ===== src/State/Keeping.antt =====
-- The aggregator keeps every stable predicate on the state.
use meshcore_rpc_services.Prelude.{Option, none, some, String}
use meshcore_rpc_services.Prelude.Int.{ℤ, Fixed}
use meshcore_rpc_services.Store.Rows.{LocationFix}
use meshcore_rpc_services.Runtime.{World}
use meshcore_rpc_services.Runtime.Keeps.{Keeps, Keeps-if, Keeps-pure, Keeps-modify, keeps_rules}
use meshcore_rpc_services.Runtime.Stable.{
  IsStable, Keeps-mark_node_seen, Keeps-upsert_node_location, Keeps-upsert_node_battery,
  Keeps-upsert_base_state, Keeps-get_last_seen, Keeps-get_node_location, Keeps-get_node_battery,
  Keeps-get_base_state, Keeps-publish_retained,
}
use meshcore_rpc_services.State.{
  NodeState, seen_state, get_node_state, publish_state, republish_state, note_radio, apply_seen,
  apply_location, apply_battery, apply_base_location, get_base_location,
}

pub ruleset stable_calls = (
  keeps_rules, Keeps-mark_node_seen, Keeps-upsert_node_location, Keeps-upsert_node_battery,
  Keeps-upsert_base_state, Keeps-get_last_seen, Keeps-get_node_location, Keeps-get_node_battery,
  Keeps-get_base_state, Keeps-publish_retained,
)

module _ {P : World → Type 0} (stable : IsStable P) where
  Keeps-seen_state : (node_id : String) (o : Option Fixed) → Keeps P (seen_state node_id o)
  unfolding seen_state
  Keeps-seen_state node_id none = search stable_calls
  Keeps-seen_state node_id (some t) = search stable_calls

  pub Keeps-get_node_state : (node_id : String) → Keeps P (get_node_state node_id)
  unfolding get_node_state
  Keeps-get_node_state node_id = search (stable_calls, Keeps-seen_state)

  Keeps-publish_state :
      (node_id : String) (o : Option NodeState) → Keeps P (publish_state node_id o)
  unfolding publish_state
  Keeps-publish_state node_id none = search stable_calls
  Keeps-publish_state node_id (some st) = search stable_calls

  Keeps-republish_state : (node_id : String) → Keeps P (republish_state node_id)
  unfolding republish_state
  Keeps-republish_state node_id = search (stable_calls, Keeps-get_node_state, Keeps-publish_state)

  Keeps-note_radio :
      (node_id : String) (ts : Fixed) (rssi : Option ℤ) (snr : Option Fixed)
      → Keeps P (note_radio node_id ts rssi snr)
  unfolding note_radio
  Keeps-note_radio node_id ts rssi snr =
      Keeps-if _ _ _ (Keeps-modify _ (λ w h. stable.radio w _ h)) (Keeps-pure tt)

  pub Keeps-apply_seen :
      (node_id : String) (ts : Fixed) (rssi : Option ℤ) (snr : Option Fixed)
      → Keeps P (apply_seen node_id ts rssi snr)
  unfolding apply_seen
  Keeps-apply_seen node_id ts rssi snr =
      search (stable_calls, Keeps-note_radio, Keeps-republish_state)

  pub Keeps-apply_location :
      (node_id : String) (fix : LocationFix) (source : String) (rssi : Option ℤ)
      (snr : Option Fixed)
      → Keeps P (apply_location node_id fix source rssi snr)
  unfolding apply_location
  Keeps-apply_location node_id fix source rssi snr =
      search (stable_calls, Keeps-note_radio, Keeps-republish_state)

  pub Keeps-apply_battery :
      (node_id : String) (ts : Fixed) (pct : Option ℤ) (voltage : Option Fixed) (source : String)
      → Keeps P (apply_battery node_id ts pct voltage source)
  unfolding apply_battery
  Keeps-apply_battery node_id ts pct voltage source = search (stable_calls, Keeps-republish_state)

  pub Keeps-apply_base_location :
      (fix : LocationFix) (source : String) → Keeps P (apply_base_location fix source)
  unfolding apply_base_location
  Keeps-apply_base_location fix source = search stable_calls

  pub Keeps-get_base_location : Keeps P get_base_location
  unfolding get_base_location
  Keeps-get_base_location = search stable_calls
