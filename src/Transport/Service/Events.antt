-- ===== src/Transport/Service/Events.antt =====
-- meshcore_rpc_services/transport/service.py: the events of the gateway, the service's health, and which
-- message goes where.
pub mod Keeping
use meshcore_rpc_services.Prelude.{
  Bool, true, false, ◌||◌, Option, none, some, [], ◌∷◌, String, ◌==◌, or_else, if◌then◌else◌,
}
use text.Mathlib.Text.{starts_with}
use meshcore_rpc_services.Prelude.Int.{ℤ, pos, Fixed, eqb_ℤ}
use meshcore_rpc_services.Prelude.Dict.{Dict}
use meshcore_rpc_services.Runtime.{M, pure, attempt, perform, time, ◌>>=◌, ◌>>◌}
use meshcore_rpc_services.Runtime.Calls.{publish}
use meshcore_rpc_services.Router.{Router}
use meshcore_rpc_services.State.{apply_seen, apply_battery}
use meshcore_rpc_services.Timeouts.Policy.{TimeoutPolicy}
use meshcore_rpc_services.Topics
use meshcore_rpc_services.Transport.Adapter.{Codec}
use meshcore_rpc_services.Transport.Service.{handle_one, direct_prefix, route_direct}
use meshcore_rpc_services.Value.{Json, bool, float, str, obj, of_entries}

-- How `vcgencmd get_throttled` ends: with an output, stripped of blanks, or with an exception, also
-- where there is no such program.
pub data Vcgencmd : Type 0 where
  output : String → Vcgencmd
  raised : Vcgencmd

-- `_vcgencmd_power_ok`, behind the subprocess
abbrev pub power_ok : Vcgencmd → Option Bool
power_ok (output out) = if starts_with out "throttled=" then some (out == "throttled=0x0") else none
power_ok raised = none

abbrev power_entry : Option Bool → Dict Json
power_entry none = []
power_entry (some b) = ("power_ok", bool b) ∷ []

abbrev pub health_payload : String → Fixed → Option Bool → Json
health_payload state now ok =
    obj (of_entries (("state", str state) ∷ ("ts", float now) ∷ power_entry ok))

-- `_publish_health`
unfoldable pub publish_health : Vcgencmd → String → M Unit
publish_health ran state = do
  now ← time
  ok ← perform (λ w. (power_ok ran, w))
  publish Topics.svc_health (health_payload state now ok) true

-- A round of `_heartbeat`, behind its sleep: an exception is logged.
unfoldable pub heartbeat : Vcgencmd → M Unit
heartbeat ran = attempt (publish_health ran "running") >> pure tt

-- An event of the gateway with the fields that the handlers read, each of its column's type.
pub record GatewayEvent : Type 0 where
  pub pubkey : Option String
  pub node_id : Option String
  pub ts : Option Fixed
  pub pct : Option ℤ
  pub battery_pct : Option ℤ
  pub voltage : Option Fixed

-- Python's `a or b`: an empty text and a zero count as missing.
abbrev pub or_text : Option String → Option String → Option String
or_text none b = b
or_text (some s) b = if s == "" then b else some s

abbrev pub or_number : Option ℤ → Option ℤ → Option ℤ
or_number none b = b
or_number (some z) b = if eqb_ℤ z (pos 0) then b else some z

-- `data.get("pubkey") or data.get("node_id")`, none where that is falsy.
abbrev pub event_node : GatewayEvent → Option String
event_node e = or_text (or_text e.pubkey e.node_id) none

abbrev pub event_ts : GatewayEvent → Fixed → Fixed
event_ts e now = or_else (or_number e.ts none) now

abbrev pub battery_seen : Option String → GatewayEvent → M Unit
battery_seen none e = pure tt
battery_seen (some node_id) e = do
  now ← time
  apply_battery node_id (event_ts e now) (or_number e.pct e.battery_pct) e.voltage "telemetry"

-- `_handle_battery_event`
unfoldable pub handle_battery_event : GatewayEvent → M Unit
handle_battery_event e = battery_seen (event_node e) e

abbrev pub telemetry_seen : Option String → GatewayEvent → M Unit
telemetry_seen none e = pure tt
telemetry_seen (some node_id) e = do now ← time; apply_seen node_id (event_ts e now) none none

-- `_handle_telemetry_event`
unfoldable pub handle_telemetry_event : GatewayEvent → M Unit
handle_telemetry_event e = telemetry_seen (event_node e) e

abbrev pub on_event : Option GatewayEvent → (GatewayEvent → M Unit) → M Unit
on_event none handle = pure tt
on_event (some e) handle = handle e

-- `_route_event`; `read_event` is `_safe_json` of a payload that is such an event, none where the
-- payload is no JSON or is falsy.
unfoldable pub route_event : Codec → (String → Option GatewayEvent) → String → String → M Unit
route_event c read_event topic payload =
    if starts_with topic direct_prefix
    then route_direct c topic payload
    else if topic == Topics.gateway_native_battery Topics.gateway_native_prefix
    then on_event (read_event payload) handle_battery_event
    else if topic == Topics.gateway_native_telemetry Topics.gateway_native_prefix
    then on_event (read_event payload) handle_telemetry_event
    else pure tt

abbrev pub is_routed : String → Bool
is_routed topic =
    starts_with topic direct_prefix
    || (topic == Topics.gateway_native_battery Topics.gateway_native_prefix
        || topic == Topics.gateway_native_telemetry Topics.gateway_native_prefix)

-- The body of `_consume_loop`: a request's task is run here, an exception of an event is logged, and
-- what is on other topics is ignored.
unfoldable pub consume :
    Codec → Router → TimeoutPolicy → (String → Option GatewayEvent) → String → String → M Unit
consume c router policy read_event topic payload =
    if topic == Topics.rpc_request
    then handle_one c router policy topic payload
    else if is_routed topic
    then attempt (route_event c read_event topic payload) >> pure tt
    else pure tt
