-- ===== src/Transport/Service/Events/Keeping.antt =====
-- The events of the gateway, its status and the health keep what does not depend on what they write.
use meshcore_rpc_services.Prelude.{Option, none, some, String, ◌==◌}
use text.Mathlib.Text.{starts_with}
use meshcore_rpc_services.Topics
use meshcore_rpc_services.Runtime.{M, World, Snapshot}
use meshcore_rpc_services.Runtime.Keeps.{
  Keeps, Keeps-bind, Keeps-if, Keeps-time, Keeps-pure, Keeps-perform, Keeps-attempt, Keeps-modify,
  Keeps-raise,
}
use meshcore_rpc_services.Runtime.Stable.{
  IsStable, Keeps-publish_retained, Keeps-record_gateway_snapshot,
}
use meshcore_rpc_services.State.Keeping.{Keeps-apply_seen, Keeps-apply_battery}
use meshcore_rpc_services.Transport.Adapter.{Codec}
use meshcore_rpc_services.Transport.Bus.{cache_status, cache_decoded, maybe_cache}
use meshcore_rpc_services.Value.{Json, obj}
use meshcore_rpc_services.Transport.Service.{route_direct, direct_prefix}
use meshcore_rpc_services.Transport.Service.Events.{
  GatewayEvent, Vcgencmd, publish_health, on_event, battery_seen, telemetry_seen,
  handle_battery_event, handle_telemetry_event, route_event,
}

module _ {P : World → Type 0} (stable : IsStable P)
    (cached : (w : World) (s : Snapshot) → P w → P (record w { gateway = s })) where
  pub Keeps-route_direct :
      (c : Codec) (topic payload : String) → Keeps P (route_direct c topic payload)
  unfolding route_direct
  Keeps-route_direct c topic payload =
      Keeps-bind _ _ Keeps-time (λ now. Keeps-apply_seen stable _ _ _ _)

  pub Keeps-publish_health : (ran : Vcgencmd) (state : String) → Keeps P (publish_health ran state)
  unfolding publish_health
  Keeps-publish_health ran state = Keeps-bind _ _ Keeps-time (λ now.
      Keeps-bind _ _ (Keeps-perform _ stable.tick (λ w h. h))
        (λ ok. Keeps-publish_retained stable _ _))

  Keeps-on_event :
      (o : Option GatewayEvent) (handle : GatewayEvent → M Unit)
      → ((e : GatewayEvent) → Keeps P (handle e))
      → Keeps P (on_event o handle)
  Keeps-on_event none handle k = Keeps-pure tt
  Keeps-on_event (some e) handle k = k e

  Keeps-battery_seen : (o : Option String) (e : GatewayEvent) → Keeps P (battery_seen o e)
  Keeps-battery_seen none e = Keeps-pure tt
  Keeps-battery_seen (some node_id) e =
      Keeps-bind _ _ Keeps-time (λ now. Keeps-apply_battery stable _ _ _ _ _)

  Keeps-telemetry_seen : (o : Option String) (e : GatewayEvent) → Keeps P (telemetry_seen o e)
  Keeps-telemetry_seen none e = Keeps-pure tt
  Keeps-telemetry_seen (some node_id) e =
      Keeps-bind _ _ Keeps-time (λ now. Keeps-apply_seen stable _ _ _ _)

  Keeps-handle_battery_event : (e : GatewayEvent) → Keeps P (handle_battery_event e)
  unfolding handle_battery_event
  Keeps-handle_battery_event e = Keeps-battery_seen _ e

  Keeps-handle_telemetry_event : (e : GatewayEvent) → Keeps P (handle_telemetry_event e)
  unfolding handle_telemetry_event
  Keeps-handle_telemetry_event e = Keeps-telemetry_seen _ e

  pub Keeps-route_event :
      (c : Codec) (read_event : String → Option GatewayEvent) (topic payload : String)
      → Keeps P (route_event c read_event topic payload)
  unfolding route_event
  Keeps-route_event c read_event topic payload =
      Keeps-if (starts_with topic direct_prefix) _ _ (Keeps-route_direct c topic payload) (
        Keeps-if (topic == Topics.gateway_native_battery Topics.gateway_native_prefix) _ _
          (Keeps-on_event (read_event payload) handle_battery_event Keeps-handle_battery_event)
          (Keeps-if (topic == Topics.gateway_native_telemetry Topics.gateway_native_prefix) _ _
            (Keeps-on_event (read_event payload) handle_telemetry_event
              Keeps-handle_telemetry_event)
            (Keeps-pure tt)))

  Keeps-cache_status : (state detail since : Json) → Keeps P (cache_status state detail since)
  unfolding cache_status
  Keeps-cache_status state detail since = Keeps-bind _ _ Keeps-time (λ now.
      Keeps-bind _ _ (Keeps-modify _ (λ w h. cached w _ h)) (λ _.
        Keeps-bind _ _ (Keeps-attempt _ (Keeps-record_gateway_snapshot stable state detail since))
          (λ _. Keeps-pure tt)))

  Keeps-cache_decoded : (o : Option Json) → Keeps P (cache_decoded o)
  unfolding cache_decoded
  Keeps-cache_decoded none = Keeps-pure tt
  Keeps-cache_decoded (some (obj fs)) = Keeps-cache_status _ _ _
  Keeps-cache_decoded (some _) = Keeps-raise _

  pub Keeps-maybe_cache : (c : Codec) (topic raw : String) → Keeps P (maybe_cache c topic raw)
  unfolding maybe_cache
  Keeps-maybe_cache c topic raw = Keeps-if _ _ _ (Keeps-cache_decoded _) (Keeps-pure tt)
