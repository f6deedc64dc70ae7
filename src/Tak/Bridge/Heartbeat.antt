-- ===== src/Tak/Bridge/Heartbeat.antt =====
-- meshcore_rpc_services/tak/bridge.py: a round of the heartbeat, and what it evicts.
use meshcore_rpc_services.Prelude.{
  Bool, Option, none, some, List, [], ◌∷◌, String, map, filter, if◌then◌else◌,
}
use meshcore_rpc_services.Prelude.Int.{ℤ, pos, Fixed, of_int, leb_ℤ, ◌-ℤ◌}
use meshcore_rpc_services.Prelude.Dict.{Dict, lookup, erase}
use meshcore_rpc_services.Runtime.{Result}
use meshcore_rpc_services.Value.{Json, number?}
use meshcore_rpc_services.Tak.Cot.{Writer, build_drop_cot}
use meshcore_rpc_services.Tak.Bridge.{
  Bridge, TakBridgeConfig, cot_type_of, uid_of, enqueue, republish_all,
}

-- The node has been offline for the threshold.
abbrev pub is_overdue : ℤ → Fixed → Fixed → Bool
is_overdue threshold now since = leb_ℤ (of_int threshold) (now -ℤ since)

unfoldable pub forget : String → Bridge → Bridge
forget node_id b = record b {
  state = erase node_id b.state;
  offline_since = erase node_id b.offline_since;
}

module _ (writer : Writer) (cfg : TakBridgeConfig) where
  abbrev pub drop_at : String → Fixed → Option Fixed → Option Fixed → Bridge → Bridge
  drop_at node_id now (some lat) (some lon) b =
      enqueue (build_drop_cot writer (uid_of node_id) (cot_type_of writer cfg node_id) lat lon now)
        b
  drop_at node_id now _ _ b = b

  -- `_publish_drop`
  abbrev pub publish_drop : String → Fixed → Option (Dict Json) → Bridge → Bridge
  publish_drop node_id now none b = b
  publish_drop node_id now (some r) b =
      drop_at node_id now (number? (lookup "lat" r)) (number? (lookup "lon" r)) b

  unfoldable pub evict : List String → Fixed → Bridge → Bridge
  evict [] now b = b
  evict (node_id ∷ rest) now b =
      evict rest now (forget node_id (publish_drop node_id now (lookup node_id b.state) b))

  abbrev pub to_evict : Fixed → Dict Fixed → List String
  to_evict now since =
      map (λ e. e.0) (filter (λ e. is_overdue cfg.remove_after_offline_s now e.1) since)

  -- `_evict_long_offline`
  unfoldable pub evict_long_offline : Fixed → Bridge → Bridge
  evict_long_offline now b =
      if leb_ℤ cfg.remove_after_offline_s (pos 0)
      then b
      else evict (to_evict now b.offline_since) now b

  -- A round of `_heartbeat`, behind its sleep: an exception ends the task.
  unfoldable pub heartbeat_round : Fixed → Bridge → Result Unit × Bridge
  heartbeat_round now b = republish_all writer cfg now (evict_long_offline now b)
