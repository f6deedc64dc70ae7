-- ===== src/Config/App.antt =====
-- meshcore_rpc_services/config.py: the settings of the connections and of both processes, with their
-- defaults, and `AppConfig.load` up to pydantic.
use meshcore_rpc_services.Prelude.{Option, none, some, String, ◌==◌, if◌then◌else◌}
use meshcore_rpc_services.Prelude.Int.{ℤ, pos, Fixed}
use meshcore_rpc_services.Config.{ServiceConfig, default_service}
use meshcore_rpc_services.Runtime.{Result, ok, err}
use meshcore_rpc_services.Topics
use meshcore_rpc_services.Value.{Json, obj, end, truthy}

pub record MqttConfig : Type 0 where
  pub host : String
  pub port : ℤ
  pub username : Option String
  pub password : Option String
  pub client_id : String
  pub qos : ℤ

abbrev pub default_mqtt : MqttConfig
default_mqtt = record {
  host = "localhost";
  port = pos 1883;
  username = none;
  password = none;
  client_id = "meshcore-rpc-services";
  qos = pos 1;
}

-- `MQTTConfig.response_topic`
abbrev pub response_topic : String → Option String
response_topic node_id = Topics.rpc_response_topic node_id

pub record TakServerConfig : Type 0 where
  pub host : String
  pub port : ℤ

abbrev pub default_server : TakServerConfig
default_server = record { host = "127.0.0.1"; port = pos 8087 }

pub record TakBridgeConfig : Type 0 where
  pub mqtt_client_id : String
  pub server : TakServerConfig
  pub callsign_template : String
  pub field_node_cot_type : String
  pub base_cot_type : String
  pub publish_interval_s : Fixed
  pub stale_after_s : ℤ
  pub remove_after_offline_s : ℤ

abbrev pub default_tak : TakBridgeConfig
default_tak = record {
  mqtt_client_id = "meshcore-tak-bridge";
  server = default_server;
  callsign_template = "MC-{id}";
  field_node_cot_type = "a-f-G-U-C";
  base_cot_type = "a-f-G-U-C-I";
  publish_interval_s = pos 10000000;
  stale_after_s = pos 300;
  remove_after_offline_s = pos 600;
}

pub record AppConfig : Type 0 where
  pub mqtt : MqttConfig
  pub service : ServiceConfig
  pub tak : TakBridgeConfig

abbrev pub default_app : AppConfig
default_app = record { mqtt = default_mqtt; service = default_service; tak = default_tak }

-- What the file system and `yaml.safe_load` give for a path: none where there is no such file.
abbrev pub Files : Type 0
Files = String → Option (Result Json)

abbrev falsy_to_empty : Json → Json
falsy_to_empty x = if truthy x then x else obj end

abbrev file_settings : Option (Result Json) → Result Json
file_settings none = ok (obj end)
file_settings (some (ok x)) = ok (falsy_to_empty x)
file_settings (some (err e)) = err e

-- The values of the file that `load` hands on: none without a path, or with an empty one.
abbrev pub settings_of : Files → Option String → Result Json
settings_of files none = ok (obj end)
settings_of files (some path) = if path == "" then ok (obj end) else file_settings (files path)

abbrev built : {A : Type 0} → (Json → Result A) → Result Json → Result A
built build (ok x) = build x
built build (err e) = err e

-- `AppConfig.load`, where `build` is `cls(**data)`.
unfoldable pub load : Files → (Json → Result AppConfig) → Option String → Result AppConfig
load files build path = built build (settings_of files path)
