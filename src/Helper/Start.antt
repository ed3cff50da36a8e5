-- ===== src/Helper/Start.antt =====
-- The beginning of `run` in services/abora-apply/src/main.rs: the command line and the configuration
-- file. The file's size and content, TOML, and whether a text is a socket address are parameters.
use abora_framework.Common.{
  ℕ, ◌≡◌, Bool, ◌||◌, List, [], ◌∷◌, Option, none, some, Result, ok, err, ◌>>=◌, >>=-eq-ok, Text,
  codes, text_eq, ltb, if◌then◌else◌,
}
use abora_framework.Config.Settings.{Config}
use abora_framework.Config.Validate.{validate}
use abora_framework.Config.Load.{ConfigError, parse_config, parse_config_valid}
use abora_framework.Update.Apply.{max_file_bytes}

pub record Args : Type 0 where
  pub config : Text
  pub result_file : Option Text

-- what the command line asks for: to exit after the usage, or to run
pub data Asked : Type 0 where
  usage : Asked
  run_with : Args → Asked

pub data ArgumentError : Type 0 where
  needs_path : Text → ArgumentError
  unknown_argument : Text → ArgumentError

pub data Flag : Type 0 where
  config_flag result_flag help_flag other : Flag

flag_of : Text → Flag
flag_of flag =
    if text_eq flag (codes "--config")
    then config_flag
    else if text_eq flag (codes "--result-file")
    then result_flag
    else if text_eq flag (codes "--help") || text_eq flag (codes "-h")
    then help_flag
    else other

abbrev default_args : Args
default_args = record { config = codes "/etc/abora/abora.toml"; result_file = none }

-- the loop, with what was read so far
read_args : List Text → Args → Result Asked ArgumentError
unfolding flag_of
read_args [] args = ok (run_with args)
read_args (flag ∷ []) args = elim (flag_of flag) [
  | config_flag ↦ err (needs_path flag)
  | result_flag ↦ err (needs_path flag)
  | help_flag ↦ ok usage
  | other ↦ err (unknown_argument flag)
]
read_args (flag ∷ value ∷ rest) args = elim (flag_of flag) [
  | config_flag ↦ read_args rest (record args { config = value })
  | result_flag ↦ read_args rest (record args { result_file = some value })
  | help_flag ↦ ok usage
  | other ↦ err (unknown_argument flag)
]

unfoldable pub parse_args : List Text → Result Asked ArgumentError
unfolding read_args
parse_args flags = read_args flags default_args

pub data LoadError : Type 0 where
  unreadable : Text → Text → LoadError
  too_large : Text → LoadError
  bad_config : Text → ConfigError → LoadError

abbrev file_or_error : Text → Result Text Text → Result Text LoadError
file_or_error path (ok text) = ok text
file_or_error path (err e) = err (unreadable path e)

abbrev size_or_error : Text → Result ℕ Text → Result (Unit {0}) LoadError
size_or_error path (err e) = err (unreadable path e)
size_or_error path (ok size) = if ltb max_file_bytes size then err (too_large path) else ok tt

abbrev config_or_error : Text → Result Config ConfigError → Result Config LoadError
config_or_error path (ok c) = ok c
config_or_error path (err e) = err (bad_config path e)

module _ (is_socket_addr : Text → Bool) (parse_toml : Text → Result Config Text)
    (size : Text → Result ℕ Text) (read_to_string : Text → Result Text Text) where
  unfoldable pub load_config : Text → Result Config LoadError
  load_config path = do
    _ ← size_or_error path (size path)
    text ← file_or_error path (read_to_string path)
    config_or_error path (parse_config is_socket_addr parse_toml text)

  config_or_error-ok :
      (path : Text) (r : Result Config ConfigError) (c : Config)
      → config_or_error path r ≡ ok c
      → r ≡ ok c
  config_or_error-ok path (ok d) c h = cc
  config_or_error-ok path (err e) c h = cc

  -- The helper runs under a valid configuration only.
  load_config_valid :
      (path : Text) (c : Config) → load_config path ≡ ok c → validate is_socket_addr c ≡ ok tt
  unfolding load_config
  load_config_valid path c h =
      let (_, _, sized) = >>=-eq-ok (size_or_error path (size path)) _ h in
      let (text, _, parsed) = >>=-eq-ok (file_or_error path (read_to_string path)) _ sized in
      parse_config_valid is_socket_addr parse_toml text c
        (config_or_error-ok path (parse_config is_socket_addr parse_toml text) c parsed)
