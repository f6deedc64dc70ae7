-- ===== src/Config.antt =====
-- meshcore_rpc_services/config.py: the settings of the service that the modelled code reads, with their
-- defaults, and what `Service.__init__` and `_init_base_location` (transport/service.py) make of them.
-- Reading them from YAML and the environment is pydantic's.
pub mod App
use meshcore_rpc_services.Prelude.{Option, none, [], String}
use meshcore_rpc_services.Prelude.Int.{ℤ, pos, Fixed}
use meshcore_rpc_services.Prelude.Dict.{Dict}
use meshcore_rpc_services.Retention.{RetentionSweeper, make_sweeper}
use meshcore_rpc_services.Runtime.{M, pure}
use meshcore_rpc_services.Timeouts.Policy.{TimeoutPolicy}
use meshcore_rpc_services.Transport.Service.Base.{init_static_base}

pub record TimeoutConfig : Type 0 where
  pub default_s : ℤ
  pub min_s : ℤ
  pub max_s : ℤ
  pub per_type_default_s : Dict ℤ

abbrev pub default_timeouts : TimeoutConfig
default_timeouts = record {
  default_s = pos 30;
  min_s = pos 1;
  max_s = pos 300;
  per_type_default_s = [];
}

pub record RetentionConfig : Type 0 where
  pub days : ℤ
  pub interval_s : Fixed

abbrev pub default_retention : RetentionConfig
default_retention = record { days = pos 30; interval_s = pos 3600000000 }

pub data BaseSource : Type 0 where
  static gpsd mqtt : BaseSource

pub record BaseLocationConfig : Type 0 where
  pub source : BaseSource
  pub static_lat : Option Fixed
  pub static_lon : Option Fixed
  pub gpsd_host : String
  pub gpsd_port : ℤ
  pub publish_interval_s : Fixed
  pub max_acc_m : Option Fixed

abbrev pub default_base : BaseLocationConfig
default_base = record {
  source = static;
  static_lat = none;
  static_lon = none;
  gpsd_host = "127.0.0.1";
  gpsd_port = pos 2947;
  publish_interval_s = pos 30000000;
  max_acc_m = none;
}

pub record ServiceConfig : Type 0 where
  pub db_path : String
  pub log_level : String
  pub timeouts : TimeoutConfig
  pub retention : RetentionConfig
  pub base : BaseLocationConfig

abbrev pub default_service : ServiceConfig
default_service = record {
  db_path = "./data/meshcore_rpc_services.sqlite3";
  log_level = "INFO";
  timeouts = default_timeouts;
  retention = default_retention;
  base = default_base;
}

-- The policy of `Service.__init__`.
abbrev pub policy_of : TimeoutConfig → TimeoutPolicy
policy_of cfg = record {
  default_s = cfg.default_s;
  min_s = cfg.min_s;
  max_s = cfg.max_s;
  per_type_default_s = cfg.per_type_default_s;
}

-- Its sweeper; `none` stands for the ValueError.
abbrev pub sweeper_of : RetentionConfig → Option RetentionSweeper
sweeper_of cfg = make_sweeper cfg.days cfg.interval_s

-- `_init_base_location`, as far as it changes the state at once: with gpsd it starts the client, whose
-- fixes come later.
unfoldable pub init_base_location : BaseLocationConfig → M Unit
init_base_location cfg = elim cfg.source [
  | static ↦ init_static_base cfg.static_lat cfg.static_lon
  | gpsd ↦ pure tt
  | mqtt ↦ pure tt
]
