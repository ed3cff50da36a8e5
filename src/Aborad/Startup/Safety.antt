-- ===== src/Aborad/Startup/Safety.antt =====
-- What holds when the daemon of services/aborad/src/main.rs starts to serve, and stays so under reloads.
use abora_framework.Common.{
  ℕ, ◌≡◌, refl, sym, ap, subst, arith, Bool, true, List, length, Option, none, some, Result, ok,
  err, >>=-eq-ok, ok-injective, Text, inl, inr, Bool-cases,
}
use abora_framework.Log.{Level, off, error, warn, info, debug, trace, level, as_rank, from_rank}
use abora_framework.Config.Settings.{Config}
use abora_framework.Config.Validate.{Problem, validate}
use abora_framework.Aborad.Tokens.{TokenStore}
use abora_framework.Aborad.Tokens.Hex.{HasHashes}
use abora_framework.Aborad.Auth.{is_loopback, is_mutating}
use abora_framework.Aborad.Server.{Handler, Request, permission_of, enforce, admit}
use abora_framework.Aborad.Server.Enforcement.{IsAuthenticated, enforce_mutating}
use abora_framework.Aborad.Reload.{
  ReloadSource, AppState, Outside, StoreLoadError, load_tokens, reload,
}
use abora_framework.Aborad.Reload.TokenFile.{IsLoaded, load_tokens_iff}
use abora_framework.Aborad.Reload.Safety.{IsConsistent, load_tokens-HasHashes, reload-IsConsistent}
use abora_framework.Aborad.Startup.{
  ConfigSource, SocketAddr, Boot, is_address, resolve_config, valid_or_fail, loopback_or_fail,
  check_bind_addr, store_or_fail, tokens_of, reload_source, load_token_store, bound_or_fail,
  new_logger, Started, start,
}

new_logger-level : (c : Config) → level (new_logger c) ≡ c.logging.level
unfolding level from_rank as_rank
new_logger-level c = go c.logging.level
  where
    go : (v : Level) → from_rank (as_rank v) ≡ v
    go off = refl
    go error = refl
    go warn = refl
    go info = refl
    go debug = refl
    go trace = refl

valid_or_fail-ok : (r : Result (Unit {0}) (List Problem)) → valid_or_fail r ≡ ok tt → r ≡ ok tt
valid_or_fail-ok (ok _) h = refl
valid_or_fail-ok (err ps) h = cc

loopback_or_fail-ok :
    (text : Text) (o : Option SocketAddr) (addr : SocketAddr)
    → loopback_or_fail text o ≡ ok addr
    → (o ≡ some addr) × (is_loopback addr.ip ≡ true)
loopback_or_fail-ok text none addr h = cc
loopback_or_fail-ok text (some p) addr h = elim (Bool-cases (is_loopback p.ip)) [
  | inl e ↦
      let same : p ≡ addr = ok-injective (rw e at h) in
      (ap some same, subst (λ (q : SocketAddr). is_loopback q.ip ≡ true) same e)
  | inr e ↦ cc (rw e at h)
]

-- There are no tokens without a token file, and otherwise the tokens are what that file holds.
abbrev pub TokensFit : Outside → Option Text → Option TokenStore → Type 0
TokensFit o none tokens = tokens ≡ none
TokensFit o (some path) tokens =
    (store : TokenStore) × (tokens ≡ some store) × IsLoaded o path store

tokens_of-TokensFit :
    (o : Outside) (token_file : Option Text) (tokens : Option TokenStore)
    → tokens_of o token_file ≡ ok tokens
    → TokensFit o token_file tokens
tokens_of-TokensFit o none tokens h = sym (ok-injective h)
tokens_of-TokensFit o (some path) tokens h = go (load_tokens o path) refl h
  where
    go :
        (r : Result TokenStore StoreLoadError)
        → load_tokens o path ≡ r
        → store_or_fail r ≡ ok tokens
        → TokensFit o (some path) tokens
    go (err e) loaded k = cc
    go (ok store) loaded k = (store, sym (ok-injective k), (load_tokens_iff o path store).0 loaded)

TokensFit-hashes :
    (o : Outside) (token_file : Option Text) (tokens : Option TokenStore)
    → TokensFit o token_file tokens
    → (store : TokenStore) → tokens ≡ some store
    → HasHashes store
TokensFit-hashes o none tokens fit store same = cc
TokensFit-hashes o (some path) tokens (other, is, held) store same =
    subst HasHashes (ground (arith, is, same))
      (load_tokens-HasHashes o path other ((load_tokens_iff o path other).1 held))

-- It listens on the loopback address that is configured, its state is consistent, and the tokens fit
-- the configuration.
pub record IsStarted (b : Boot) (started : Started) : Type 0 where
  pub local : is_loopback started.address.ip ≡ true
  pub configured :
      b.parse_socket_addr started.state.config.remote.listen_addr ≡ some started.address
  pub consistent : IsConsistent (is_address b) started.state
  pub tokens_fit : TokensFit b.outside started.state.config.security.token_file started.state.tokens

parts-IsStarted :
    (b : Boot) (config : Config) (source : ConfigSource) (address : SocketAddr)
    (tokens : Option TokenStore)
    → validate (is_address b) config ≡ ok tt
    → check_bind_addr b config ≡ ok address
    → load_token_store b.outside config ≡ ok tokens
    → IsStarted b (record {
      address = address;
      source = reload_source source;
      state = record { config = config; logger = new_logger config; tokens = tokens };
    })
unfolding check_bind_addr load_token_store
parts-IsStarted b config source address tokens valid bound loaded =
    let (configured, local) =
      loopback_or_fail-ok config.remote.listen_addr (b.parse_socket_addr config.remote.listen_addr)
        address bound in
    let fit = tokens_of-TokensFit b.outside config.security.token_file tokens loaded in
    record {
      local = local;
      configured = configured;
      consistent = record {
        threshold = new_logger-level config;
        valid = valid;
        hashes = TokensFit-hashes b.outside config.security.token_file tokens fit;
      };
      tokens_fit = fit;
    }

pub start-IsStarted :
    (b : Boot) (config_path : Option Text) (started : Started)
    → start b config_path ≡ ok started
    → IsStarted b started
unfolding start
start-IsStarted b config_path started h =
    let ((config, source), resolved, after_resolve) =
      >>=-eq-ok (resolve_config b config_path) _ h in
    let (_, checked, after_check) =
      >>=-eq-ok (valid_or_fail (validate (is_address b) config)) _ after_resolve in
    let (address, bound, after_address) = >>=-eq-ok (check_bind_addr b config) _ after_check in
    let (tokens, loaded, after_tokens) =
      >>=-eq-ok (load_token_store b.outside config) _ after_address in
    let (_, _, done) = >>=-eq-ok (bound_or_fail (b.bind address)) _ after_tokens in
    subst (IsStarted b) (ok-injective done) (
      parts-IsStarted b config source address tokens
        (valid_or_fail-ok (validate (is_address b) config) checked) bound loaded)

-- The states of the daemon after reloads, each of which may find other files.
pub data Reloaded (is_socket_addr : Text → Bool) (first : AppState) : AppState → Type 0 where
  unchanged : Reloaded is_socket_addr first first
  reloaded :
      (o : Outside) (source : ReloadSource) (s : AppState)
      → Reloaded is_socket_addr first s
      → Reloaded is_socket_addr first (reload is_socket_addr o source s)

Reloaded-IsConsistent :
    (is_socket_addr : Text → Bool) (first : AppState) {s : AppState}
    → IsConsistent is_socket_addr first
    → Reloaded is_socket_addr first s
    → IsConsistent is_socket_addr s
Reloaded-IsConsistent is_socket_addr first c unchanged = c
Reloaded-IsConsistent is_socket_addr first c (reloaded o source t r) =
    reload-IsConsistent is_socket_addr o source t (Reloaded-IsConsistent is_socket_addr first c r)

-- After the start and any reloads, a handler that changes the system runs only for a caller that a
-- token of the loaded file authenticates for exactly that. SHA-256 gives 32 bytes.
pub admitted_after_reloads :
    (b : Boot) (config_path : Option Text) (first : Started) (s : AppState) (sha256 : Text → List ℕ)
    (handler h' : Handler) (req : Request) (caller : Text)
    → start b config_path ≡ ok first
    → Reloaded (is_address b) first.state s
    → ((secret : Text) → length (sha256 secret) ≡ 32)
    → is_mutating (permission_of handler) ≡ true
    → enforce sha256 s.config.security.require_authentication s.tokens handler req ≡ admit h' caller
    → (h' ≡ handler)
      × IsAuthenticated sha256 s.config.security.require_authentication s.tokens
          (permission_of handler)
          req
          caller
admitted_after_reloads b config_path first s sha256 handler h' req caller starts r k m e =
    let at_start = start-IsStarted b config_path first starts in
    let now = Reloaded-IsConsistent (is_address b) first.state at_start.consistent r in
    enforce_mutating sha256 s.config.security.require_authentication s.tokens handler h' req caller
      k now.hashes m e
