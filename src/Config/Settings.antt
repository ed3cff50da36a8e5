-- ===== src/Config/Settings.antt =====
-- The sections of `Config` in crates/abora-config/src/lib.rs, with their defaults. A path is its
-- text. The extension tables and the feature flags, which no code here reads, are left out.
use abora_framework.Common.{ℕ, ◌*◌, Bool, true, false, List, [], Option, none, Text, codes}
use abora_framework.Log.{Level, info, Format, json}
use abora_framework.Update.{Channel, stable, RebootPolicy, ask, MaintenanceWindow}

pub record SystemConfig : Type 0 where
  pub hostname : Option Text
  pub description : Option Text

pub record UpdatesConfig : Type 0 where
  pub channel : Channel
  pub automatic : Bool
  pub check_interval : Text
  pub reboot_policy : RebootPolicy
  pub state_file : Text
  pub apply_result_file : Text

pub record MaintenanceConfig : Type 0 where
  pub enabled : Bool
  pub windows : List MaintenanceWindow

pub record RemoteConfig : Type 0 where
  pub enabled : Bool
  pub listen_addr : Text
  pub advertise_hostname : Option Text

pub record SecurityConfig : Type 0 where
  pub require_authentication : Bool
  pub token_file : Option Text

pub record LoggingConfig : Type 0 where
  pub level : Level
  pub format : Format

pub record ApiConfig : Type 0 where
  pub base_path : Text
  pub max_payload_bytes : ℕ
  pub request_timeout_secs : ℕ

pub record Config : Type 0 where
  pub system : SystemConfig
  pub updates : UpdatesConfig
  pub maintenance : MaintenanceConfig
  pub remote : RemoteConfig
  pub security : SecurityConfig
  pub logging : LoggingConfig
  pub api : ApiConfig

abbrev pub default_updates : UpdatesConfig
default_updates = record {
  channel = stable;
  automatic = false;
  check_interval = codes "6h";
  reboot_policy = ask;
  state_file = codes "/var/lib/abora/updates.json";
  apply_result_file = codes "/var/lib/abora-apply/result.json";
}

abbrev pub default_config : Config
default_config = record {
  system = record { hostname = none; description = none };
  updates = default_updates;
  maintenance = record { enabled = true; windows = [] };
  remote = record {
    enabled = false;
    listen_addr = codes "127.0.0.1:7360";
    advertise_hostname = none;
  };
  security = record { require_authentication = true; token_file = none };
  logging = record { level = info; format = json };
  api = record {
    base_path = codes "/api/v1";
    max_payload_bytes = 1024 * 1024;
    request_timeout_secs = 30;
  };
}
