-- ===== src/Aborad/Reload.antt =====
-- services/aborad/src/reload.rs: what a reload changes in the daemon's state. Reading files and parsing
-- TOML are parameters; log lines are left out, but for the lists that they print.
pub mod Settings
pub mod TokenFile
pub mod Safety
use abora_framework.Common.{
  ℕ, ◌==◌, Bool, true, false, not, bool_eq, ◌&&◌, is_empty, List, [], ◌∷◌, ◌++◌, length, Option,
  none, some, Result, ok, err, Text, codes, text_eq, if◌then◌else◌,
}
use abora_framework.Log.{Level, Logger, set_level}
use abora_framework.Update.{Channel, RebootPolicy}
use abora_framework.Config.Settings.{Config}
use abora_framework.Config.Equality.{
  option_eq, list_eq, channel_eq, policy_eq, format_eq, level_eq, window_eq,
}
use abora_framework.Config.Load.{ConfigError, load}
use abora_framework.Aborad.Tokens.{TokenStore, RawToken, TokenError, from_str}

pub data ReloadSource : Type 0 where
  file : Text → ReloadSource
  builtin : ReloadSource

abbrev pub file_path : ReloadSource → Option Text
file_path (file path) = some path
file_path builtin = none

-- the part of `AppState` that a reload touches
pub record AppState : Type 0 where
  pub config : Config
  pub logger : Logger
  pub tokens : Option TokenStore

-- what needs a restart
pub data RestartNote : Type 0 where
  listen_addr base_path : Text → Text → RestartNote
  log_format : RestartNote

-- a setting that differs, with its new value
pub data Change : Type 0 where
  hostname : Option Text → Change
  description : Change
  channel : Channel → Change
  automatic : Bool → Change
  check_interval : Text → Change
  reboot_policy : RebootPolicy → Change
  maintenance_enabled : Bool → Change
  windows : ℕ → Change
  require_authentication : Bool → Change
  token_file : Option Text → Change
  level : Level → Change
  max_payload_bytes request_timeout_secs : ℕ → Change

-- `push` where the test fails
abbrev pub push_unless : {A : Type 0} → Bool → A → List A
push_unless true a = []
push_unless false a = a ∷ []

unfoldable pub restart_required : Config → Config → List RestartNote
restart_required previous fresh =
    push_unless (text_eq previous.remote.listen_addr fresh.remote.listen_addr)
      (listen_addr previous.remote.listen_addr fresh.remote.listen_addr)
    ++ (push_unless (text_eq previous.api.base_path fresh.api.base_path)
          (base_path previous.api.base_path fresh.api.base_path)
        ++ push_unless (format_eq previous.logging.format fresh.logging.format) log_format)

-- with the equality of paths
unfoldable pub changed_settings : (Text → Text → Bool) → Config → Config → List Change
changed_settings path_eq previous fresh =
    push_unless (option_eq text_eq previous.system.hostname fresh.system.hostname)
      (hostname fresh.system.hostname)
    ++ (push_unless (option_eq text_eq previous.system.description fresh.system.description)
          description
        ++ (push_unless (channel_eq previous.updates.channel fresh.updates.channel)
              (channel fresh.updates.channel)
            ++ (push_unless (bool_eq previous.updates.automatic fresh.updates.automatic)
                  (automatic fresh.updates.automatic)
                ++ (push_unless
                      (text_eq previous.updates.check_interval fresh.updates.check_interval)
                      (check_interval fresh.updates.check_interval)
                    ++ (push_unless
                          (policy_eq previous.updates.reboot_policy fresh.updates.reboot_policy)
                          (reboot_policy fresh.updates.reboot_policy)
                        ++ (push_unless
                              (bool_eq previous.maintenance.enabled fresh.maintenance.enabled)
                              (maintenance_enabled fresh.maintenance.enabled)
                            ++ (push_unless
                                  (list_eq window_eq previous.maintenance.windows
                                    fresh.maintenance.windows)
                                  (windows (length fresh.maintenance.windows))
                                ++ (push_unless
                                      (bool_eq previous.security.require_authentication
                                        fresh.security.require_authentication)
                                      (require_authentication fresh.security.require_authentication)
                                    ++ (push_unless
                                          (option_eq path_eq previous.security.token_file
                                            fresh.security.token_file)
                                          (token_file fresh.security.token_file)
                                        ++ (push_unless
                                              (level_eq previous.logging.level fresh.logging.level)
                                              (level fresh.logging.level)
                                            ++ (push_unless
                                                  (previous.api.max_payload_bytes
                                                    == fresh.api.max_payload_bytes)
                                                  (max_payload_bytes fresh.api.max_payload_bytes)
                                                ++ push_unless
                                                    (previous.api.request_timeout_secs
                                                      == fresh.api.request_timeout_secs)
                                                    (request_timeout_secs
                                                      fresh.api.request_timeout_secs))))))))))))

-- the log says `configuration unchanged`
abbrev pub says_unchanged : (Text → Text → Bool) → Config → Config → Bool
says_unchanged path_eq previous fresh =
    is_empty (changed_settings path_eq previous fresh) && is_empty (restart_required previous fresh)

pub data StoreLoadError : Type 0 where
  io : Text → Text → StoreLoadError
  bad_entry : Text → TokenError → StoreLoadError

-- Files, and the two uses of the TOML parser, at one moment.
pub record Outside : Type 0 where
  pub config_toml : Text → Result Config Text
  pub tokens_toml : Text → Result (List RawToken) Text
  pub read_to_string : Text → Result Text Text

abbrev entries_or_error : Text → Result TokenStore TokenError → Result TokenStore StoreLoadError
entries_or_error path (ok store) = ok store
entries_or_error path (err e) = err (bad_entry path e)

abbrev store_or_error :
    (Text → Result (List RawToken) Text)
    → Text
    → Result Text Text
    → Result TokenStore StoreLoadError
store_or_error toml path (ok raw) = entries_or_error path (from_str toml raw)
store_or_error toml path (err e) = err (io path e)

-- `TokenStore::load`
unfoldable pub load_tokens : Outside → Text → Result TokenStore StoreLoadError
load_tokens o path = store_or_error o.tokens_toml path (o.read_to_string path)

-- a bad token file keeps the previous store
abbrev kept_or_loaded : Option TokenStore → Result TokenStore StoreLoadError → Option TokenStore
kept_or_loaded tokens (ok store) = some store
kept_or_loaded tokens (err e) = tokens

abbrev tokens_after : Outside → Option TokenStore → Option Text → Option TokenStore
tokens_after o tokens none = none
tokens_after o tokens (some path) = kept_or_loaded tokens (load_tokens o path)

unfoldable pub refresh_tokens : Outside → AppState → AppState
refresh_tokens o s = record s { tokens = tokens_after o s.tokens s.config.security.token_file }

abbrev logger_after : Logger → Bool → Level → Logger
logger_after logger true v = logger
logger_after logger false v = set_level logger v

unfoldable pub apply_reload : Outside → Config → AppState → AppState
apply_reload o fresh s =
    let logger =
      logger_after s.logger (level_eq s.config.logging.level fresh.logging.level)
        fresh.logging.level in
    refresh_tokens o (record s { config = fresh; logger = logger })

abbrev loaded_or_kept : Outside → AppState → Result Config ConfigError → AppState
loaded_or_kept o s (ok fresh) = apply_reload o fresh s
loaded_or_kept o s (err e) = s

-- with whether a text is a socket address
unfoldable pub reload : (Text → Bool) → Outside → ReloadSource → AppState → AppState
reload is_socket_addr o builtin s = s
reload is_socket_addr o (file path) s =
    loaded_or_kept o s (load is_socket_addr o.config_toml o.read_to_string path)
