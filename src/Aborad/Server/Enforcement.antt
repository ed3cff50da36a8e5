-- ===== src/Aborad/Server/Enforcement.antt =====
-- Which requests reach their handler, for whom, and how the others are answered.
use abora_framework.Common.{
  ℕ, ◌≡◌, ◌≢◌, ◌⊎◌, refl, sym, ap, ◌∙◌, inl, inr, Bool, true, false, List, Option, none, some, Text,
  Some, length,
}
use abora_framework.Api.{ApiErrorDetail, http_status}
use abora_framework.Aborad.Tokens.{StoredToken, TokenStore, find_token}
use abora_framework.Aborad.Tokens.Hex.{HasHashes}
use abora_framework.Aborad.Auth.{
  Permission, permission_id, is_mutating, IpAddr, is_loopback, Decision, allowed,
  remote_not_allowed, authentication_required, insufficient_permission, tokens_required, authorize,
  into_denial,
}
use abora_framework.Aborad.Auth.Rules.{
  IsFound, IsTrusted, find_token-IsFound, mutating-IsNamed, authorize_iff,
}
use abora_framework.Aborad.Server.{
  Handler, permission_of, Request, Verdict, admit, deny, peer_of, bearer_of, enforced_store,
  name_or_placeholder, caller_of, verdict, denied, enforce,
}

-- What a verdict can be after a decision: never an internal error.
abbrev pub IsVerdict : Handler → Text → Decision → Verdict → Type 0
IsVerdict handler caller d v =
    ((d ≡ allowed) × (v ≡ admit handler caller))
    ⊎ ((d ≢ allowed)
        × (body : ApiErrorDetail) × (v ≡ deny body)
        × ((http_status body.code ≡ 401) ⊎ (http_status body.code ≡ 403)))

verdict-IsVerdict :
    (handler : Handler) (caller : Text) (d : Decision)
    → IsVerdict handler caller d (verdict handler caller d)
unfolding verdict denied into_denial
verdict-IsVerdict handler caller allowed = inl (refl, refl)
verdict-IsVerdict handler caller remote_not_allowed = inr (λ e. cc, _, refl, inr refl)
verdict-IsVerdict handler caller authentication_required = inr (λ e. cc, _, refl, inl refl)
verdict-IsVerdict handler caller insufficient_permission = inr (λ e. cc, _, refl, inr refl)
verdict-IsVerdict handler caller tokens_required = inr (λ e. cc, _, refl, inr refl)

module _ (sha256 : Text → List ℕ) (require_authentication : Bool) (tokens : Option TokenStore) where
  -- A request reaches its handler exactly when it is allowed; every other one is answered with an
  -- error of status 401 or 403.
  pub enforce-IsVerdict :
      (handler : Handler) (req : Request)
      → IsVerdict handler
          (caller_of sha256
            (enforced_store require_authentication tokens)
            (bearer_of req.authorization))
          (authorize sha256
            (peer_of req.peer)
            (permission_of handler)
            (bearer_of req.authorization)
            (enforced_store require_authentication tokens))
          (enforce sha256 require_authentication tokens handler req)
  unfolding enforce
  enforce-IsVerdict handler req = verdict-IsVerdict handler _ _

  local_peer :
      (peer : Option IpAddr)
      → is_loopback (peer_of peer) ≡ true
      → (ip : IpAddr) × (peer ≡ some ip) × (is_loopback ip ≡ true)
  local_peer none h = cc
  local_peer (some ip) h = (ip, refl, h)

  enforced :
      (required : Bool) (store : Option TokenStore) (s : TokenStore)
      → enforced_store required store ≡ some s
      → (required ≡ true) × (store ≡ some s)
  enforced true store s h = (refl, h)
  enforced false store s h = cc

  -- A token of the loaded file lets the caller do this: authentication is required, the peer is on
  -- the loopback interface, the secret's hash stands in the file, the token names the permission,
  -- and the caller is recorded under the token's name.
  pub record IsAuthenticated (p : Permission) (req : Request) (caller : Text) : Type 0 where
    pub required : require_authentication ≡ true
    pub ip : IpAddr
    pub peer_is : req.peer ≡ some ip
    pub is_local : is_loopback ip ≡ true
    pub store : TokenStore
    pub loaded : tokens ≡ some store
    pub secret : Text
    pub token : StoredToken
    pub bearer_is : bearer_of req.authorization ≡ some secret
    pub found : IsFound sha256 store secret token
    pub names : Some (λ q. q ≡ permission_id p) token.permissions
    pub caller_is : caller ≡ name_or_placeholder token.name

  caller_of-found :
      (s : TokenStore) (secret : Text) (token : StoredToken)
      → find_token sha256 s secret ≡ some token
      → caller_of sha256 (some s) (some secret) ≡ name_or_placeholder token.name
  unfolding caller_of
  caller_of-found s secret token h = rw h refl

  trusted-IsAuthenticated :
      (p : Permission) (req : Request) (caller : Text) (store : Option TokenStore)
      → ((s : Text) → length (sha256 s) ≡ 32)
      → ((s : TokenStore) → tokens ≡ some s → HasHashes s)
      → is_mutating p ≡ true
      → enforced_store require_authentication tokens ≡ store
      → is_loopback (peer_of req.peer) ≡ true
      → IsTrusted sha256 p (bearer_of req.authorization) store
      → caller ≡ caller_of sha256 store (bearer_of req.authorization)
      → IsAuthenticated p req caller
  trusted-IsAuthenticated p req caller none k h m e near trusted c = cc
  trusted-IsAuthenticated p req caller (some s) k h m e near (secret, token, b, f, granted) c =
      let (ip, peer_is, is_local) = local_peer req.peer near in
      let (required, loaded) = enforced require_authentication tokens s e in
      record {
        required = required;
        ip = ip;
        peer_is = peer_is;
        is_local = is_local;
        store = s;
        loaded = loaded;
        secret = secret;
        token = token;
        bearer_is = b;
        found = find_token-IsFound sha256 s secret token (k secret) (h s loaded) f;
        names = mutating-IsNamed p token m granted;
        caller_is = c ∙ ap (caller_of sha256 (some s)) b ∙ caller_of-found s secret token f;
      }

  -- Where a handler changes the system, it runs only for a caller that a token of the loaded file
  -- authenticates for exactly that. Hashes have 32 bytes.
  pub enforce_mutating :
      (handler h' : Handler) (req : Request) (caller : Text)
      → ((s : Text) → length (sha256 s) ≡ 32)
      → ((s : TokenStore) → tokens ≡ some s → HasHashes s)
      → is_mutating (permission_of handler) ≡ true
      → enforce sha256 require_authentication tokens handler req ≡ admit h' caller
      → (h' ≡ handler) × IsAuthenticated (permission_of handler) req caller
  enforce_mutating handler h' req caller k h m e =
      let store = enforced_store require_authentication tokens in
      let bearer = bearer_of req.authorization in
      elim (enforce-IsVerdict handler req) [
        | inr (_, body, v, _) ↦ cc
        | inl (a, v) ↦
            let same : admit h' caller ≡ admit handler (caller_of sha256 store bearer) =
              sym e ∙ v in
            let (near, trusted) =
              (authorize_iff sha256 (peer_of req.peer) (permission_of handler) bearer store).0 a in
            (
              cc,
              trusted-IsAuthenticated (permission_of handler) req caller store k h m refl near
                  trusted cc,
            )
      ]
