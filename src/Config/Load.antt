-- ===== src/Config/Load.antt =====
-- `Config::load` and `Config::parse_config` of crates/abora-config/src/lib.rs. Reading a file and parsing
-- TOML are parameters.
use abora_framework.Common.{
  ◌≡◌, Bool, List, Result, ok, err, ◌>>=◌, >>=-eq-ok, ok-injective, subst, Text, refl,
}
use abora_framework.Config.Settings.{Config}
use abora_framework.Config.Validate.{Problem, validate}

pub data ConfigError : Type 0 where
  io : Text → Text → ConfigError
  toml : Text → ConfigError
  invalid : List Problem → ConfigError

abbrev parsed_or_error : Result Config Text → Result Config ConfigError
parsed_or_error (ok c) = ok c
parsed_or_error (err e) = err (toml e)

abbrev valid_or_error : Config → Result (Unit {0}) (List Problem) → Result Config ConfigError
valid_or_error c (ok _) = ok c
valid_or_error c (err ps) = err (invalid ps)

abbrev raw_or_error : Text → Result Text Text → Result Text ConfigError
raw_or_error path (ok raw) = ok raw
raw_or_error path (err e) = err (io path e)

module _ (is_socket_addr : Text → Bool) (parse_toml : Text → Result Config Text) where
  unfoldable pub parse_config : Text → Result Config ConfigError
  parse_config raw = do
    c ← parsed_or_error (parse_toml raw)
    valid_or_error c (validate is_socket_addr c)

  unfoldable pub load : (Text → Result Text Text) → Text → Result Config ConfigError
  unfolding parse_config
  load read_to_string path = raw_or_error path (read_to_string path) >>= parse_config

  valid_or_error-ok :
      (c out : Config) (r : Result (Unit {0}) (List Problem))
      → valid_or_error c r ≡ ok out
      → r ≡ ok tt
  valid_or_error-ok c out (ok _) h = refl
  valid_or_error-ok c out (err ps) h = cc

  -- What is parsed is valid.
  pub parse_config_valid :
      (raw : Text) (c : Config) → parse_config raw ≡ ok c → validate is_socket_addr c ≡ ok tt
  unfolding parse_config
  parse_config_valid raw c h =
      let (parsed, _, checked) = >>=-eq-ok (parsed_or_error (parse_toml raw)) _ h in
      let ok_parsed = valid_or_error-ok parsed c (validate is_socket_addr parsed) checked in
      subst (λ d. validate is_socket_addr d ≡ ok tt)
        (ok-injective (subst (λ r. valid_or_error parsed r ≡ ok c) ok_parsed checked)) ok_parsed

  -- What is loaded is valid.
  pub load_valid :
      (read_to_string : Text → Result Text Text) (path : Text) (c : Config)
      → load read_to_string path ≡ ok c
      → validate is_socket_addr c ≡ ok tt
  unfolding load
  load_valid read_to_string path c h =
      let (raw, _, from_raw) = >>=-eq-ok (raw_or_error path (read_to_string path)) parse_config h in
      parse_config_valid raw c from_raw
