-- ===== src/Aborad/Startup/Tests.antt =====
-- A daemon that starts from a configuration file with a token file, is reloaded, and is asked by an
-- operator. A fixed list of 32 bytes stands for every hash.
use abora_framework.Common.{
  ◌≢◌, Bool, text_eq, if◌then◌else◌, ℕ, zero, suc, ◌≡◌, ◌↔◌, ◌⊎◌, refl, true, List, [], ◌∷◌, none,
  some, ok, err, Text, codes,
}
use abora_framework.Log.{as_rank}
use abora_framework.Config.Settings.{Config, default_config}
use abora_framework.Config.Clock.{parse_clock}
use abora_framework.Config.Duration.{parse_duration}
use abora_framework.Config.Validate.{validate}
use abora_framework.Config.Load.{load, parse_config}
use abora_framework.Aborad.Tokens.{
  TokenStore, RawToken, ct_eq, find_token, grants, decode_sha256_hex, from_str,
}
use abora_framework.Aborad.Auth.{v4, is_mutating, permission_id, authorize}
use abora_framework.Aborad.Server.{
  apply_updates, permission_of, Request, bearer_value, admit, enforce,
}
use abora_framework.Aborad.Server.Enforcement.{IsAuthenticated}
use abora_framework.Aborad.Reload.{
  ReloadSource, file, AppState, Outside, load_tokens, reload, apply_reload, refresh_tokens,
}
use abora_framework.Aborad.Reload.Safety.{
  IsConsistent, ReloadedTo, reload-IsConsistent, reload_tokens,
}
use abora_framework.Aborad.Startup.{
  Boot, Started, is_address, new_logger, resolve_config, check_bind_addr, load_token_store, start,
  SocketAddr,
}
use abora_framework.Aborad.Watch.{Fingerprint, WatchState, fingerprint_of_token}
use abora_framework.Aborad.Startup.Safety.{
  unchanged, reloaded, start-IsStarted, admitted_after_reloads,
}
use abora_framework.Aborad.Watch.Settles.{IsGone, tick, watch_tick_settles}

abbrev sevens : ℕ → List ℕ
sevens zero = []
sevens (suc n) = 7 ∷ sevens n

abbrev toy_sha256 : Text → List ℕ
toy_sha256 s = sevens 32

abbrev config : Config
config = record default_config {
  security = record { require_authentication = true; token_file = some (codes "/t") };
}

abbrev raw : RawToken
raw = record {
  raw_name = some (codes "operator");
  raw_permissions = codes "read_all" ∷ codes "manage:updates" ∷ [];
  secret_hash = codes "sha256:0707070707070707070707070707070707070707070707070707070707070707";
}

abbrev tokens : TokenStore
tokens = record {
  entries =
      record {
        token = record {
          name = some (codes "operator");
          permissions = codes "read_all" ∷ codes "manage:updates" ∷ [];
        };
        hash = sevens 32;
      }
      ∷ [];
}

abbrev outside : Outside
outside = record {
  config_toml = λ text. ok config;
  tokens_toml = λ text. ok (raw ∷ []);
  read_to_string = λ path. ok path;
}

-- later the token file is damaged
abbrev damaged : Outside
damaged = record outside { tokens_toml = λ text. err (codes "not a token file") }

abbrev local : SocketAddr
local = record { ip = v4 127 0 0 1; port = 7360 }

abbrev boot : Boot
boot = record {
  outside = outside;
  exists = λ path. true;
  abora_config = none;
  parse_socket_addr = λ text. some local;
  bind = λ addr. ok tt;
}

abbrev config_file : ReloadSource
config_file = file (codes "/c")

abbrev begun : Started
begun = record {
  address = local;
  source = config_file;
  state = record { config = config; logger = new_logger config; tokens = some tokens };
}

started : start boot (some (codes "/c")) ≡ ok begun
unfolding start resolve_config load parse_config validate check_bind_addr load_token_store
    load_tokens from_str decode_sha256_hex as_rank parse_duration parse_clock
started = refl

abbrev later : AppState
later = reload (is_address boot) damaged config_file begun.state

reload-IsConsistent_example : IsConsistent (is_address boot) later
reload-IsConsistent_example =
    reload-IsConsistent (is_address boot) damaged config_file begun.state
      (start-IsStarted boot (some (codes "/c")) begun started).consistent

reload_tokens_example : ReloadedTo (is_address boot) damaged begun.state later config_file
reload_tokens_example = reload_tokens (is_address boot) damaged config_file begun.state

abbrev request : Request
request = record { peer = some (v4 127 0 0 1); authorization = some (codes "bearer secret") }

apply-is_mutating : is_mutating (permission_of apply_updates) ≡ true
unfolding is_mutating permission_of
apply-is_mutating = refl

still_admitted :
    enforce toy_sha256 later.config.security.require_authentication later.tokens apply_updates
      request
    ≡ admit apply_updates (codes "operator")
unfolding reload apply_reload refresh_tokens load parse_config validate parse_duration parse_clock
    load_tokens from_str enforce authorize find_token grants permission_id ct_eq permission_of
    bearer_value
still_admitted = refl

admitted_after_reloads_example :
    (apply_updates ≡ apply_updates)
    × IsAuthenticated toy_sha256 later.config.security.require_authentication later.tokens
        (permission_of apply_updates)
        request
        (codes "operator")
admitted_after_reloads_example =
    admitted_after_reloads boot (some (codes "/c")) begun later toy_sha256 apply_updates
      apply_updates request (codes "operator") started
      (reloaded damaged config_file begun.state unchanged) (λ s. refl) apply-is_mutating
      still_admitted

-- the configuration file is gone, the token file is not
abbrev disk : Text → Fingerprint
disk path = if text_eq path (codes "/t") then some (5, 20) else none

abbrev seen : WatchState
seen = record { state = begun.state; config_seen = some (3, 100); token_seen = some (5, 20) }

abbrev second : Bool × WatchState
second =
    tick (is_address boot) damaged disk config_file
      (tick (is_address boot) damaged disk config_file seen).1

abbrev token_second : Fingerprint
token_second =
    fingerprint_of_token disk (tick (is_address boot) damaged disk config_file seen).1.state

abbrev token_remembered : Fingerprint
token_remembered = (tick (is_address boot) damaged disk config_file seen).1.token_seen

watch_tick_settles_example :
    ((second.0 ≡ true) ↔ (IsGone none (some (3, 100)) ⊎ (token_second ≢ token_remembered)))
    × (((tick (is_address boot) damaged disk config_file second.1).0 ≡ true)
        ↔ (IsGone none (some (3, 100)) ⊎ IsGone token_second token_remembered))
watch_tick_settles_example = watch_tick_settles (is_address boot) damaged disk config_file seen
