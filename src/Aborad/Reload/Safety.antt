-- ===== src/Aborad/Reload/Safety.antt =====
-- What reloads of services/aborad/src/reload.rs keep: a valid configuration, the logger's threshold,
-- and the tokens.
use abora_framework.Common.{
  ◌≡◌, refl, ap, ◌∙◌, arith, Bool, Option, none, some, Result, ok, err, Text, Bool-cases, inl, inr,
}
use abora_framework.Log.{Level, Logger, level, level-set_level}
use abora_framework.Config.Settings.{Config}
use abora_framework.Config.Equality.{level_eq, level_eq_iff}
use abora_framework.Config.Validate.{validate}
use abora_framework.Config.Load.{ConfigError, load, load_valid}
use abora_framework.Aborad.Tokens.{TokenStore, from_str}
use abora_framework.Aborad.Tokens.Hex.{HasHashes, from_str-HasHashes}
use abora_framework.Aborad.Reload.TokenFile.{IsLoaded, load_tokens_iff, entries_or_error-ok}
use abora_framework.Aborad.Reload.{
  ReloadSource, file, builtin, AppState, Outside, StoreLoadError, store_or_error, load_tokens,
  kept_or_loaded, tokens_after, refresh_tokens, logger_after, apply_reload, loaded_or_kept, reload,
}

pub load_tokens-HasHashes :
    (o : Outside) (path : Text) (store : TokenStore)
    → load_tokens o path ≡ ok store
    → HasHashes store
unfolding load_tokens
load_tokens-HasHashes o path store h = go (o.read_to_string path) h
  where
    go : (r : Result Text Text) → store_or_error o.tokens_toml path r ≡ ok store → HasHashes store
    go (err e) k = cc
    go (ok raw) k =
        from_str-HasHashes o.tokens_toml raw store
          (entries_or_error-ok path (from_str o.tokens_toml raw) store k)

-- Tokens that had proper hashes still have, whatever is loaded.
tokens_after-HasHashes :
    (o : Outside) (tokens : Option TokenStore) (token_file : Option Text)
    → ((store : TokenStore) → tokens ≡ some store → HasHashes store)
    → (store : TokenStore) → tokens_after o tokens token_file ≡ some store
    → HasHashes store
tokens_after-HasHashes o tokens none h store same = cc
tokens_after-HasHashes o tokens (some path) h store same = go (load_tokens o path) refl same
  where
    go :
        (r : Result TokenStore StoreLoadError)
        → load_tokens o path ≡ r
        → kept_or_loaded tokens r ≡ some store
        → HasHashes store
    go (err e) loaded k = h store k
    go (ok s) loaded k = load_tokens-HasHashes o path store (loaded ∙ ap ok (ground (arith, k)))

module _ (is_socket_addr : Text → Bool) where
  -- The threshold is the configured one, the configuration is valid, and every hash of the tokens
  -- has 32 bytes.
  pub record IsConsistent (s : AppState) : Type 0 where
    pub threshold : level s.logger ≡ s.config.logging.level
    pub valid : validate is_socket_addr s.config ≡ ok tt
    pub hashes : (store : TokenStore) → s.tokens ≡ some store → HasHashes store

  logger_after-level :
      (logger : Logger) (old new : Level)
      → level logger ≡ old
      → level (logger_after logger (level_eq old new) new) ≡ new
  logger_after-level logger old new h = elim (Bool-cases (level_eq old new)) [
    | inl e ↦ rw e (h ∙ (level_eq_iff old new).0 e)
    | inr e ↦ rw e (level-set_level logger new).0
  ]

  apply_reload-IsConsistent :
      (o : Outside) (fresh : Config) (s : AppState)
      → validate is_socket_addr fresh ≡ ok tt
      → IsConsistent s
      → IsConsistent (apply_reload o fresh s)
  unfolding apply_reload refresh_tokens
  apply_reload-IsConsistent o fresh s v c = record {
    threshold = logger_after-level s.logger s.config.logging.level fresh.logging.level c.threshold;
    valid = v;
    hashes = tokens_after-HasHashes o s.tokens fresh.security.token_file c.hashes;
  }

  -- Every reload, whether it succeeds or fails, keeps a consistent state consistent.
  pub reload-IsConsistent :
      (o : Outside) (source : ReloadSource) (s : AppState)
      → IsConsistent s
      → IsConsistent (reload is_socket_addr o source s)
  unfolding reload
  reload-IsConsistent o builtin s c = c
  reload-IsConsistent o (file path) s c =
      go (load is_socket_addr o.config_toml o.read_to_string path) refl
    where
      go :
          (r : Result Config ConfigError)
          → load is_socket_addr o.config_toml o.read_to_string path ≡ r
          → IsConsistent (loaded_or_kept o s r)
      go (err e) loaded = c
      go (ok fresh) loaded =
          apply_reload-IsConsistent o fresh s
            (load_valid is_socket_addr o.config_toml o.read_to_string path fresh loaded) c

  -- What a reload from a source makes of the configuration and the tokens. A configuration that
  -- cannot be loaded changes nothing. Otherwise it is the new one, and the tokens are none where it
  -- names no token file, what that file holds where it holds a store, and the old ones where it does not.
  pub data ReloadedTo (o : Outside) (s t : AppState) : ReloadSource → Type 0 where
    no_file : t ≡ s → ReloadedTo o s t builtin
    refused :
        (path : Text) (e : ConfigError)
        → load is_socket_addr o.config_toml o.read_to_string path ≡ err e
        → t ≡ s
        → ReloadedTo o s t (file path)
    disabled :
        (path : Text)
        → load is_socket_addr o.config_toml o.read_to_string path ≡ ok t.config
        → t.config.security.token_file ≡ none
        → t.tokens ≡ none
        → ReloadedTo o s t (file path)
    replaced :
        (path token_path : Text) (store : TokenStore)
        → load is_socket_addr o.config_toml o.read_to_string path ≡ ok t.config
        → t.config.security.token_file ≡ some token_path
        → IsLoaded o token_path store
        → t.tokens ≡ some store
        → ReloadedTo o s t (file path)
    kept :
        (path token_path : Text)
        → load is_socket_addr o.config_toml o.read_to_string path ≡ ok t.config
        → t.config.security.token_file ≡ some token_path
        → ((store : TokenStore) → ¬ (IsLoaded o token_path store))
        → t.tokens ≡ s.tokens
        → ReloadedTo o s t (file path)

  applied :
      (o : Outside) (path : Text) (fresh : Config) (s : AppState) (token_file : Option Text)
      → load is_socket_addr o.config_toml o.read_to_string path ≡ ok fresh
      → fresh.security.token_file ≡ token_file
      → ReloadedTo o s (apply_reload o fresh s) (file path)
  unfolding apply_reload refresh_tokens
  applied o path fresh s none loaded is = disabled path loaded is (rw is refl)
  applied o path fresh s (some p) loaded is = go (load_tokens o p) refl
    where
      tokens_are :
          (r : Result TokenStore StoreLoadError)
          → load_tokens o p ≡ r
          → (apply_reload o fresh s).tokens ≡ kept_or_loaded s.tokens r
      tokens_are r e = rw (is, e) refl

      go :
          (r : Result TokenStore StoreLoadError)
          → load_tokens o p ≡ r
          → ReloadedTo o s (apply_reload o fresh s) (file path)
      go (ok store) e =
          replaced path p store loaded is ((load_tokens_iff o p store).0 e)
            (tokens_are (ok store) e)
      go (err w) e =
          kept path p loaded is (λ store l. cc (e, (load_tokens_iff o p store).1 l))
            (tokens_are (err w) e)

  -- A reload changes nothing where the configuration cannot be loaded. Where it can, it is installed,
  -- and the tokens are dropped where it names no token file, replaced by what that file holds where
  -- every hash in it decodes, and kept as they were where the file is missing or damaged.
  pub reload_tokens :
      (o : Outside) (source : ReloadSource) (s : AppState)
      → ReloadedTo o s (reload is_socket_addr o source s) source
  unfolding reload
  reload_tokens o builtin s = no_file refl
  reload_tokens o (file path) s = go (load is_socket_addr o.config_toml o.read_to_string path) refl
    where
      go :
          (r : Result Config ConfigError)
          → load is_socket_addr o.config_toml o.read_to_string path ≡ r
          → ReloadedTo o s (loaded_or_kept o s r) (file path)
      go (err e) loaded = refused path e loaded refl
      go (ok fresh) loaded = applied o path fresh s fresh.security.token_file loaded refl

  -- Where nothing changes outside, a second reload finds the configuration that the first one installed.
  pub reload_again :
      (o : Outside) (source : ReloadSource) (s : AppState)
      → (reload is_socket_addr o source (reload is_socket_addr o source s)).config
        ≡ (reload is_socket_addr o source s).config
  unfolding reload apply_reload refresh_tokens
  reload_again o builtin s = refl
  reload_again o (file path) s = go (load is_socket_addr o.config_toml o.read_to_string path)
    where
      go :
          (r : Result Config ConfigError)
          → (loaded_or_kept o (loaded_or_kept o s r) r).config ≡ (loaded_or_kept o s r).config
      go (err e) = refl
      go (ok fresh) = refl
