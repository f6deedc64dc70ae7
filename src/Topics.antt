-- ===== src/Topics.antt =====
-- meshcore_rpc_services/mqtt/topics.py
use meshcore_rpc_services.Prelude.{Option, none, some, [], ◌∷◌, String, ◌==◌, format, if◌then◌else◌}

abbrev pub rpc_request : String
rpc_request = "mc/rpc/req"

abbrev pub rpc_response_prefix : String
rpc_response_prefix = "mc/rpc/resp"

abbrev pub gateway_status : String
gateway_status = "mc/gateway/status"

abbrev pub svc_health : String
svc_health = "mc/svc/health"

abbrev pub node_prefix : String
node_prefix = "mc/node"

abbrev pub base_location : String
base_location = "mc/base/location"

-- `none` stands for the ValueError on an empty id.
unfoldable pub rpc_response_topic : String → Option String
unfolding format
rpc_response_topic node_id =
    if node_id == "" then none else some (format (rpc_response_prefix ∷ "/" ∷ node_id ∷ []))

unfoldable pub node_location_topic : String → String
unfolding format
node_location_topic node_id = format (node_prefix ∷ "/" ∷ node_id ∷ "/location" ∷ [])

unfoldable pub node_battery_topic : String → String
unfolding format
node_battery_topic node_id = format (node_prefix ∷ "/" ∷ node_id ∷ "/battery" ∷ [])

unfoldable pub node_state_topic : String → String
unfolding format
node_state_topic node_id = format (node_prefix ∷ "/" ∷ node_id ∷ "/state" ∷ [])

abbrev pub gateway_native_prefix : String
gateway_native_prefix = "meshcore"

abbrev pub gateway_native_status_suffix : String
gateway_native_status_suffix = "status"

abbrev pub gateway_native_direct_msg_filter_suffix : String
gateway_native_direct_msg_filter_suffix = "message/direct/+"

abbrev pub gateway_native_send_msg_suffix : String
gateway_native_send_msg_suffix = "command/send_msg"

abbrev pub gateway_native_battery_suffix : String
gateway_native_battery_suffix = "battery"

abbrev pub gateway_native_telemetry_suffix : String
gateway_native_telemetry_suffix = "telemetry"

abbrev pub gateway_native_advertisement_suffix : String
gateway_native_advertisement_suffix = "advertisement"

unfoldable pub gateway_native_battery : String → String
unfolding format
gateway_native_battery prefix = format (prefix ∷ "/" ∷ gateway_native_battery_suffix ∷ [])

unfoldable pub gateway_native_telemetry : String → String
unfolding format
gateway_native_telemetry prefix = format (prefix ∷ "/" ∷ gateway_native_telemetry_suffix ∷ [])

unfoldable pub gateway_native_status : String → String
unfolding format
gateway_native_status prefix = format (prefix ∷ "/" ∷ gateway_native_status_suffix ∷ [])

unfoldable pub gateway_native_direct_msg_filter : String → String
unfolding format
gateway_native_direct_msg_filter prefix =
    format (prefix ∷ "/" ∷ gateway_native_direct_msg_filter_suffix ∷ [])

unfoldable pub gateway_native_send_msg : String → String
unfolding format
gateway_native_send_msg prefix = format (prefix ∷ "/" ∷ gateway_native_send_msg_suffix ∷ [])

unfoldable pub gateway_native_advertisement : String → String
unfolding format
gateway_native_advertisement prefix =
    format (prefix ∷ "/" ∷ gateway_native_advertisement_suffix ∷ [])
