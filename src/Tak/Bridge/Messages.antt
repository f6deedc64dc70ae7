-- ===== src/Tak/Bridge/Messages.antt =====
-- meshcore_rpc_services/tak/bridge.py: what a retained message does to the bridge.
use meshcore_rpc_services.Prelude.{◌&&◌, Option, none, some, String, ◌==◌, if◌then◌else◌}
use meshcore_rpc_services.Prelude.Int.{Fixed}
use meshcore_rpc_services.Prelude.Dict.{Dict}
use meshcore_rpc_services.Prelude.Split.{ends_with}
use meshcore_rpc_services.Runtime.{Result, ok}
use meshcore_rpc_services.Topics
use meshcore_rpc_services.Value.{Json, obj, entries}
use meshcore_rpc_services.Tak.Cot.{Writer}
use meshcore_rpc_services.Tak.NodeTopic.{base_key, node_prefix_slash, extract_node_id, key_for}
use meshcore_rpc_services.Tak.Bridge.{
  Bridge, TakBridgeConfig, merge_state, update_offline_tracking, publish_one,
}
use text.Mathlib.Text.{starts_with}

abbrev pub located : Option String → Dict Json → Fixed → Bridge → Bridge
located none d now b = b
located (some node_id) d now b = merge_state node_id d "node" now b

abbrev pub stated : Option String → Dict Json → Fixed → Bridge → Bridge
stated none d now b = b
stated (some node_id) d now b =
    update_offline_tracking node_id d now (merge_state node_id d "node" now b)

-- The branches of `_handle_mqtt_message` by the topic; `none` where it returns at once.
unfoldable pub ingest : String → Dict Json → Fixed → Bridge → Option Bridge
ingest topic d now b =
    if topic == Topics.base_location
    then some (merge_state base_key d "base" now b)
    else if starts_with topic node_prefix_slash && ends_with topic "/location"
    then some (located (extract_node_id topic "/location") d now b)
    else if starts_with topic node_prefix_slash && ends_with topic "/state"
    then some (stated (extract_node_id topic "/state") d now b)
    else none

-- `decode` is `json.loads` of the payload as UTF-8 text, `none` where either of the two raises.
module _ (writer : Writer) (cfg : TakBridgeConfig) (decode : String → Option Json) where
  abbrev pub publish_changed :
      String → Dict Json → Fixed → Option Bridge → Bridge → Result Unit × Bridge
  publish_changed topic d now none b = (ok tt, b)
  publish_changed topic d now (some b') b = publish_one writer cfg (key_for topic d) now b'

  -- A payload that is no dict is passed over.
  abbrev pub on_payload : String → Option Json → Fixed → Bridge → Result Unit × Bridge
  on_payload topic (some (obj fs)) now b =
      publish_changed topic (entries fs) now (ingest topic (entries fs) now b) b
  on_payload topic _ now b = (ok tt, b)

  -- `_handle_mqtt_message`
  unfoldable pub handle_mqtt_message : String → String → Fixed → Bridge → Result Unit × Bridge
  handle_mqtt_message topic payload now b = on_payload topic (decode payload) now b
