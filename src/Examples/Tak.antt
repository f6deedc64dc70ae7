-- ===== src/Examples/Tak.antt =====
-- The theorems on the TAK bridge, applied to a small bridge.
use meshcore_rpc_services.Prelude.{
  ℕ, ◌≡◌, ◌≤◌, ◌↔◌, refl, true, false, Option, none, some, List, [], ◌∷◌, ◌++◌, String, ◌==◌,
  length, arith, if◌then◌else◌, format, eq_iff,
}
use meshcore_rpc_services.Prelude.Int.{pos, Fixed, ◌-ℤ◌, of_int, ◌+ℤ◌}
use meshcore_rpc_services.Prelude.Dict.{Dict, lookup, contains, insert}
use meshcore_rpc_services.Prelude.Split.{has_slash}
use meshcore_rpc_services.Runtime.{ok}
use meshcore_rpc_services.State.{compact_json, location_entries}
use meshcore_rpc_services.Store.Rows.{LocationFix}
use meshcore_rpc_services.Topics
use meshcore_rpc_services.Value.{Json, bool, float, obj, number?, field, end}
use meshcore_rpc_services.Tak.Cot.{Writer, element, line, event_xml, build_cot}
use meshcore_rpc_services.Tak.NodeTopic.{extract_node_id}
use meshcore_rpc_services.Tak.NodeTopic.Parsing.{IsLevel, extract_node_id-topics}
use meshcore_rpc_services.Tak.Sink.{
  TakSink, Input, turn, drained, sent, serve, send_all, queue_cap, begin_session, Round, dropped,
  run, send,
}
use meshcore_rpc_services.Tak.Sink.Recent.{send_all-keep_last}
use meshcore_rpc_services.Tak.Sink.Serving.{turns, serve-turns-drained, begin_session-serve}
use meshcore_rpc_services.Tak.Sink.Backoff.{run-delays_from, delays_from}
use meshcore_rpc_services.Tak.Bridge.{Bridge, TakBridgeConfig, event_of, event_for, republish_all}
use meshcore_rpc_services.Tak.Bridge.Messages.{handle_mqtt_message}
use meshcore_rpc_services.Tak.Bridge.Heartbeat.{evict_long_offline}
use meshcore_rpc_services.Tak.Bridge.Evicting.{lookup-evict_long_offline}
use meshcore_rpc_services.Tak.Bridge.Offline.{Received, handle_all, handle_all-first_offline}
use meshcore_rpc_services.Tak.Bridge.Reachable.{
  new_bridge, start, next, received, Reachable-IsValid,
}
use meshcore_rpc_services.Tak.Bridge.Invariant.{IsValid}
use meshcore_rpc_services.Tak.Bridge.Republishing.{
  republish_all-events, republish_all-raised, is_raised,
}
use meshcore_rpc_services.Tak.Bridge.Delivered.{located_record, handle_mqtt_message-location}

abbrev three : List ℕ
three = 2 ∷ 3 ∷ 4 ∷ []

abbrev one : List ℕ
one = 1 ∷ []

send_all-keep_last_example :
    (send_all 2 three one ≡ 3 ∷ 4 ∷ []) × (length (send_all 2 three one) ≤ 2)
send_all-keep_last_example = send_all-keep_last 2 (omega arith) three one (omega arith)

abbrev sink : TakSink ℕ
sink = record { queue = 1 ∷ []; was_connected = true; written = [] }

abbrev inputs : List (Input ℕ)
inputs = sent 2 ∷ turn (3 ∷ []) drained ∷ []

serve-turns-drained_example :
    serve (inputs ++ turns 3) sink
    ≡ (record { queue = []; was_connected = true; written = 1 ∷ 2 ∷ 3 ∷ [] }, none)
serve-turns-drained_example =
    serve-turns-drained 3 inputs sink (refl, (refl, tt)) (omega arith) (omega arith)

begin_session-serve_example :
    (begin_session
      (some (λ q. q ++ 9 ∷ []))
      (serve inputs (begin_session (some (λ q. q ++ 9 ∷ [])) sink)).0).queue
    ≡ 9 ∷ []
begin_session-serve_example = begin_session-serve (some (λ q. q ++ 9 ∷ [])) inputs sink

abbrev lost : Round
lost = record { ended = dropped; stopped = false; stopped_waiting = false }

run-delays_from_example : run (lost ∷ lost ∷ []) 3 ≡ delays_from 3 2
run-delays_from_example = run-delays_from (lost ∷ lost ∷ []) 3 (refl, (refl, tt))

n1-IsLevel : IsLevel "n1"
unfolding has_slash
n1-IsLevel = (λ e. ground (arith, eq_iff "n1" "", e), refl)

extract_node_id-topics_example :
    ((extract_node_id "mc/node/n1/location" "/location" ≡ some "n1")
      ↔ (("mc/node/n1/location" ≡ Topics.node_location_topic "n1") × IsLevel "n1"))
    × ((extract_node_id "mc/node/n1/location" "/state" ≡ some "n1")
        ↔ (("mc/node/n1/location" ≡ Topics.node_state_topic "n1") × IsLevel "n1"))
extract_node_id-topics_example = extract_node_id-topics "mc/node/n1/location" "n1"

-- An event is written as its uid.
abbrev second_value : Dict String → String
second_value ((j, v) ∷ (k, w) ∷ d) = w
second_value _ = ""

abbrev writer : Writer
writer = record {
  strftime = λ t. "2026-01-01T00:00:00.";
  float_text = λ n x. "1.0";
  tostring = λ x. elim x [ element tag attrs text kids ↦ second_value attrs ];
}

abbrev cfg : TakBridgeConfig
cfg = record {
  callsign_template = λ id. ok id;
  field_node_cot_type = "a-f-G-U-C";
  base_cot_type = "a-f-G-U-C-I";
  stale_after_s = pos 300;
  remove_after_offline_s = pos 600;
}

abbrev fix : LocationFix
fix = record {
  lat = pos 48000000;
  lon = pos 11000000;
  ts = pos 1000000000;
  alt = none;
  acc = none;
  fix = none;
  spd = none;
  hdg = none;
}

abbrev decode : String → Option Json
decode s =
    if s == "online"
    then some (obj (field "online" (bool true) end))
    else if s == "offline"
    then some (obj (field "online" (bool false) end))
    else if s == "fix"
    then some (compact_json (location_entries "n1" fix "mesh" none none))
    else none

abbrev at_s : ℕ → Fixed
at_s n = of_int (pos n)

abbrev bridge : Bridge
bridge = record {
  state =
      ("n1", ("lat", float (pos 48000000)) ∷ ("lon", float (pos 11000000)) ∷ [])
      ∷ ("n2", ("online", bool true) ∷ [])
      ∷ [];
  offline_since = ("n1", at_s 1000) ∷ [];
  queue = [];
}

lookup-evict_long_offline_example :
    (lookup "n1" (evict_long_offline writer cfg (at_s 1600) bridge).state ≡ none)
    × (lookup "n1" (evict_long_offline writer cfg (at_s 1600) bridge).offline_since ≡ none)
unfolding lookup contains of_int ◌-ℤ◌
lookup-evict_long_offline_example =
    lookup-evict_long_offline writer cfg "n1" (at_s 1600) bridge (refl, tt)

abbrev state_message : String → ℕ → Received
state_message payload n = record { topic = "mc/node/n1/state"; payload = payload; at = at_s n }

handle_all-first_offline_example :
    lookup "n1"
      (handle_all writer cfg decode
        (state_message "offline" 5
          ∷ state_message "online" 6
          ∷ state_message "offline" 7
          ∷ state_message "offline" 8
          ∷ [])
        new_bridge).offline_since
    ≡ some (at_s 7)
unfolding lookup Topics.node_state_topic
handle_all-first_offline_example =
    handle_all-first_offline writer cfg decode "n1"
      (state_message "offline" 5
        ∷ state_message "online" 6
        ∷ state_message "offline" 7
        ∷ state_message "offline" 8
        ∷ [])
      new_bridge n1-IsLevel refl

Reachable-IsValid_example :
    IsValid
      (handle_mqtt_message writer cfg decode "mc/node/n1/state" "offline" (at_s 5) new_bridge).1
Reachable-IsValid_example =
    Reachable-IsValid writer cfg decode _
      (next start (received "mc/node/n1/state" "offline" (at_s 5) new_bridge))

republish_all-events_example :
    republish_all writer cfg (at_s 1200) bridge
    ≡ (ok tt, record bridge { queue = "meshcore.n1\n" ∷ [] })
unfolding event_for lookup format build_cot of_int ◌+ℤ◌
republish_all-events_example =
    republish_all-events writer cfg (at_s 1200) bridge ("meshcore.n1\n" ∷ []) (omega arith) refl

-- A record whose time is past the year 9999.
abbrev bad_record : Dict Json
bad_record =
    ("lat", float (pos 0)) ∷ ("lon", float (pos 0)) ∷ ("ts", float (of_int (pos 300000000000))) ∷ []

republish_all-raised_example :
    is_raised
      (republish_all writer cfg
        (at_s 1)
        (record bridge { state = ("n9", bad_record) ∷ bridge.state })).0
    ≡ true
unfolding lookup of_int
republish_all-raised_example =
    republish_all-raised writer cfg "n9" bad_record (at_s 1)
      (record bridge { state = ("n9", bad_record) ∷ bridge.state }) refl
      (pos 0, pos 0, of_int (pos 300000000000), refl, refl, refl, refl)

abbrev n1_record : Dict Json
n1_record = located_record "n1" fix "mesh" none none none (at_s 1000)

handle_mqtt_message-location_example :
    (handle_mqtt_message writer cfg decode
        (Topics.node_location_topic "n1")
        "fix"
        (at_s 1000)
        new_bridge
      ≡ (
        ok tt,
        record new_bridge {
          state = insert "n1" n1_record [];
          queue =
              send queue_cap
                (line writer (
                  event_xml writer
                    (event_of writer cfg "n1" n1_record fix.lat fix.lon fix.ts "n1")))
                [];
        },
      ))
    × (number? (lookup "lat" n1_record) ≡ some (pos 48000000))
    × (number? (lookup "lon" n1_record) ≡ some (pos 11000000))
    × (number? (lookup "ts" n1_record) ≡ some (pos 1000000000))
unfolding lookup of_int ◌+ℤ◌
handle_mqtt_message-location_example =
    handle_mqtt_message-location writer cfg decode "fix" (at_s 1000) new_bridge "n1" fix "mesh" none
      none "n1" refl n1-IsLevel refl refl refl
