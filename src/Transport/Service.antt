-- ===== src/Transport/Service.antt =====
-- meshcore_rpc_services/transport/service.py: inbound messages to the pipeline and the aggregator.
pub mod Emitting
pub mod Pipeline
pub mod Base
pub mod Delivery
pub mod Responses
pub mod Replying
pub mod Safety
pub mod Sweeping
pub mod Events
pub mod Lifetime
use meshcore_rpc_services.Prelude.{
  ℕ, Bool, true, false, Option, none, some, List, [], ◌∷◌, String, ◌==◌, ◌||◌, or_else,
  if◌then◌else◌, char_count, drop_chars,
}
use text.Mathlib.Text.{starts_with}
use meshcore_rpc_services.Prelude.Int.{ℤ, Fixed, trunc}
use meshcore_rpc_services.Prelude.Dict.{Dict, lookup, contains}
use meshcore_rpc_services.Core.{Emitter, process_request}
use meshcore_rpc_services.Router.{Router}
use meshcore_rpc_services.Runtime.{M, Exn, crash, pure, raise, or_raise, attempt, time, ◌>>=◌, ◌>>◌}
use meshcore_rpc_services.Runtime.Calls.{publish}
use meshcore_rpc_services.Schemas.{Request, Response}
use meshcore_rpc_services.State.{apply_seen, apply_battery}
use meshcore_rpc_services.Timeouts.Policy.{TimeoutPolicy}
use meshcore_rpc_services.Topics
use meshcore_rpc_services.Transport.Adapter.{
  Codec, InboundEnvelope, inbound_to_request, response_to_outbound,
}
use meshcore_rpc_services.Value.{Json, obj, end, field, entries, truthy?, number?, text?}

-- `_emit`: the topic goes by the addressee of the response, or else by the node.
unfoldable pub emit : Emitter
unfolding response_to_outbound
emit node_id response = do
  let (to, payload) = response_to_outbound response
  topic ←
      or_raise (Topics.rpc_response_topic (if to == "" then node_id else to)) (crash "ValueError")
  publish topic payload false

-- An exception in it is logged.
unfoldable pub emit_adapter_error : Option Response → M Unit
emit_adapter_error none = pure tt
emit_adapter_error (some response) = attempt (emit response.to response) >> pure tt

unfoldable pub on_envelope : Router → TimeoutPolicy → Option Request → Option Response → M Unit
unfolding emit_adapter_error
on_envelope router policy none error_response = emit_adapter_error error_response
on_envelope router policy (some request) error_response = process_request emit request router policy

-- `_handle_one`
unfoldable pub handle_one : Codec → Router → TimeoutPolicy → String → String → M Unit
unfolding on_envelope
handle_one c router policy topic payload =
    let env = inbound_to_request c topic payload in
    on_envelope router policy env.request env.error_response

-- `_extract_radio_metadata`: the event's inner dict, or the event itself.
abbrev inner_dict : Dict Json → Option Json → Dict Json
inner_dict d (some (obj fs)) = entries fs
inner_dict d _ = d

abbrev pick : String → String → Dict Json → Option Json
pick upper lower d = if contains upper d then lookup upper d else lookup lower d

abbrev to_int : Option Fixed → Option ℤ
to_int none = none
to_int (some x) = some (trunc x)

unfoldable pub extract_radio_metadata : Option Json → Option ℤ × Option Fixed
extract_radio_metadata (some (obj fs)) =
    let d = entries fs in
    let inner = inner_dict d (lookup "payload" d) in
    (to_int (number? (pick "RSSI" "rssi" inner)), number? (pick "SNR" "snr" inner))
extract_radio_metadata _ = (none, none)

abbrev pub direct_prefix : String
direct_prefix = "meshcore/message/direct/"

-- The first branch of `_route_event`: a direct message marks its sender as seen.
unfoldable pub route_direct : Codec → String → String → M Unit
unfolding extract_radio_metadata
route_direct c topic payload = do
  let (rssi, snr) = extract_radio_metadata (c.loads payload)
  now ← time
  apply_seen (drop_chars (char_count direct_prefix) topic) now rssi snr
