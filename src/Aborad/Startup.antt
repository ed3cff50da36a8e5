-- ===== src/Aborad/Startup.antt =====
-- services/aborad/src/main.rs: the command line, which configuration is loaded, what the daemon checks
-- before it listens. Files, the environment, parsing of socket addresses, and binding with the socket's
-- options are parameters.
pub mod Safety
mod Tests
use abora_framework.Common.{
  ℕ, Bool, true, false, not, ◌&&◌, ◌||◌, List, [], ◌∷◌, Option, none, some, Result, ok, err, ◌>>=◌,
  Text, codes, text_eq, if◌then◌else◌,
}
use abora_framework.Log.{Logger, as_rank}
use abora_framework.Update.Store.{
  StoreData, StoreError, ReadOutcome, UpdateStore, Opened, in_memory, open',
}
use abora_framework.Config.Settings.{Config, default_config}
use abora_framework.Config.Validate.{Problem, validate}
use abora_framework.Config.Load.{ConfigError, io, load}
use abora_framework.Aborad.Tokens.{TokenStore}
use abora_framework.Aborad.Auth.{IpAddr, is_loopback}
use abora_framework.Aborad.Reload.{
  ReloadSource, file, builtin, AppState, Outside, StoreLoadError, load_tokens,
}

pub data Action : Type 0 where
  help version : Action
  run : Option Text → Action

pub data ArgumentError : Type 0 where
  missing_path : ArgumentError
  unknown_argument : Text → ArgumentError

abbrev chosen : Bool → Bool → Option Text → Action
chosen true version' path = help
chosen false true path = version
chosen false false path = run path

pub data Word : Type 0 where
  help_flag version_flag config_flag other : Word

word_of : Text → Word
word_of arg =
    if text_eq arg (codes "--help") || text_eq arg (codes "-h")
    then help_flag
    else if text_eq arg (codes "--version") || text_eq arg (codes "-V")
    then version_flag
    else if text_eq arg (codes "--config")
    then config_flag
    else other

-- the loop, with the flags and the path so far
parse_loop : List Text → Bool → Bool → Option Text → Result Action ArgumentError
unfolding word_of
parse_loop [] help' version' path = ok (chosen help' version' path)
parse_loop (arg ∷ []) help' version' path = elim (word_of arg) [
  | help_flag ↦ ok (chosen true version' path)
  | version_flag ↦ ok (chosen help' true path)
  | config_flag ↦ err missing_path
  | other ↦ err (unknown_argument arg)
]
parse_loop (arg ∷ next ∷ args) help' version' path = elim (word_of arg) [
  | help_flag ↦ parse_loop (next ∷ args) true version' path
  | version_flag ↦ parse_loop (next ∷ args) help' true path
  | config_flag ↦ parse_loop args help' version' (some next)
  | other ↦ err (unknown_argument arg)
]

unfoldable pub parse_args : List Text → Result Action ArgumentError
unfolding parse_loop
parse_args args = parse_loop args false false none

pub data ConfigSource : Type 0 where
  explicit environment : Text → ConfigSource
  builtin_defaults : ConfigSource

pub data StartError : Type 0 where
  config_error : ConfigError → StartError
  invalid_config : List Problem → StartError
  bad_listen_addr not_loopback : Text → StartError
  token_error : StoreLoadError → StartError
  bind_error : Text → StartError

pub record SocketAddr : Type 0 where
  pub ip : IpAddr
  pub port : ℕ

-- what the daemon finds when it starts
pub record Boot : Type 0 where
  pub outside : Outside
  pub exists : Text → Bool
  pub abora_config : Option Text
  pub parse_socket_addr : Text → Option SocketAddr
  pub bind : SocketAddr → Result (Unit {0}) Text

abbrev pub is_some {ℓ} : {A : Type ℓ} → Option A → Bool
is_some none = false
is_some (some a) = true

-- whether a text is a socket address
abbrev pub is_address : Boot → Text → Bool
is_address b addr = is_some (b.parse_socket_addr addr)

abbrev pub load_config : Boot → Text → Result Config ConfigError
load_config b path = load (is_address b) b.outside.config_toml b.outside.read_to_string path

abbrev pub default_path : Text
default_path = codes "/etc/abora/abora.toml"

abbrev from_source :
    ConfigSource → Result Config ConfigError → Result (Config × ConfigSource) StartError
from_source source (ok c) = ok (c, source)
from_source source (err e) = err (config_error e)

-- the default path, where a file that does not exist means the defaults
from_default : Bool → Result Config ConfigError → Result (Config × ConfigSource) StartError
from_default exists (ok c) = ok (c, explicit default_path)
from_default exists (err (io path e)) =
    if text_eq path default_path && not exists
    then ok (default_config, builtin_defaults)
    else err (config_error (io path e))
from_default exists (err (ConfigError.toml e)) = err (config_error (ConfigError.toml e))
from_default exists (err (ConfigError.invalid ps)) = err (config_error (ConfigError.invalid ps))

unfoldable pub resolve_config : Boot → Option Text → Result (Config × ConfigSource) StartError
unfolding from_default
resolve_config b (some path) = from_source (explicit path) (load_config b path)
resolve_config b none = elim b.abora_config [
  | some path ↦ from_source (environment path) (load_config b path)
  | none ↦ from_default (b.exists default_path) (load_config b default_path)
]

abbrev valid_or_fail : Result (Unit {0}) (List Problem) → Result (Unit {0}) StartError
valid_or_fail (ok _) = ok tt
valid_or_fail (err ps) = err (invalid_config ps)

abbrev loopback_or_fail : Text → Option SocketAddr → Result SocketAddr StartError
loopback_or_fail text none = err (bad_listen_addr text)
loopback_or_fail text (some addr) =
    if not (is_loopback addr.ip) then err (not_loopback text) else ok addr

unfoldable pub check_bind_addr : Boot → Config → Result SocketAddr StartError
check_bind_addr b c =
    loopback_or_fail c.remote.listen_addr (b.parse_socket_addr c.remote.listen_addr)

abbrev store_or_fail : Result TokenStore StoreLoadError → Result (Option TokenStore) StartError
store_or_fail (ok store) = ok (some store)
store_or_fail (err e) = err (token_error e)

abbrev tokens_of : Outside → Option Text → Result (Option TokenStore) StartError
tokens_of o none = ok none
tokens_of o (some path) = store_or_fail (load_tokens o path)

unfoldable pub load_token_store : Outside → Config → Result (Option TokenStore) StartError
load_token_store o c = tokens_of o c.security.token_file

abbrev pub reload_source : ConfigSource → ReloadSource
reload_source (explicit path) = file path
reload_source (environment path) = file path
reload_source builtin_defaults = builtin

abbrev bound_or_fail : Result (Unit {0}) Text → Result (Unit {0}) StartError
bound_or_fail (ok _) = ok tt
bound_or_fail (err e) = err (bind_error e)

-- `Logger::builder().level(…).format(…).build()`
abbrev pub new_logger : Config → Logger
new_logger c = record { level_rank = as_rank c.logging.level; format = c.logging.format }

-- what `run` sets up before it serves: where it listens, what it reloads from, and the state
pub record Started : Type 0 where
  pub address : SocketAddr
  pub source : ReloadSource
  pub state : AppState

unfoldable pub start : Boot → Option Text → Result Started StartError
unfolding as_rank
start b config_path = do
  (config, source) ← resolve_config b config_path
  _ ← valid_or_fail (validate (is_address b) config)
  address ← check_bind_addr b config
  tokens ← load_token_store b.outside config
  _ ← bound_or_fail (b.bind address)
  ok (record {
    address = address;
    source = reload_source source;
    state = record { config = config; logger = new_logger config; tokens = tokens };
  })

-- `open_updates`: a store that cannot be opened is replaced by one in memory
abbrev opened_or_memory : Result (UpdateStore × Opened) StoreError → UpdateStore
opened_or_memory (ok (store, opened)) = store
opened_or_memory (err e) = in_memory

unfoldable pub open_updates :
    (List ℕ → Option StoreData) → ReadOutcome → Result (Unit {0}) Text → Config → UpdateStore
open_updates from_slice read rename c =
    opened_or_memory (open' from_slice c.updates.state_file read rename)
