-- ===== src/Aborad/Auth/Rules.antt =====
-- Who is admitted, in terms of the token file.
use abora_framework.Common.{
  ℕ, ◌≡◌, ◌↔◌, ◌⊎◌, refl, inl, inr, arith, Bool, true, false, not, List, [], ◌∷◌, Option, none,
  some, Option-cases, Bool-cases, &&-eq-true, ◌&&◌, ◌||◌, Text, codes, text_eq, text_eq_iff,
  starts_with, find, any→Some, Some→any, Some, Some-mono, All, length, subst,
}
use abora_framework.Api.{ApiErrorDetail, http_status}
use abora_framework.Aborad.Tokens.{StoredToken, Entry, TokenStore, grants, find_token, ct_eq}
use abora_framework.Aborad.Tokens.Hex.{HasHashes}
use abora_framework.Aborad.Tokens.Compare.{ct_eq_iff}
use abora_framework.Aborad.Auth.{
  Permission, read_health, read_version, read_system, read_services, read_updates, manage_updates,
  permission_id, is_mutating, IpAddr, is_loopback, Decision, allowed, authentication_required,
  authorize, decide_store, decide_bearer, decide_token, into_denial,
}

-- The token is the one of the first entry whose hash is the secret's.
pub record IsFound (sha256 : Text → List ℕ) (store : TokenStore) (secret : Text)
    (token : StoredToken) : Type 0 where
  pub entry : Entry
  pub present : Some (λ e. e ≡ entry) store.entries
  pub hash_is : entry.hash ≡ sha256 secret
  pub token_is : entry.token ≡ token

not-eq-true : (b : Bool) → not b ≡ true → b ≡ false
not-eq-true true h = cc
not-eq-true false h = refl

or-true : (b : Bool) → (b || true) ≡ true
or-true true = refl
or-true false = refl

find_entry :
    (hash : List ℕ) (es : List Entry) (entry : Entry)
    → length hash ≡ 32
    → All (λ (e : Entry). length e.hash ≡ 32) es
    → find (λ (e : Entry). ct_eq e.hash hash) es ≡ some entry
    → Some (λ e. e ≡ entry) es × (entry.hash ≡ hash)
find_entry hash [] entry k h p = cc
find_entry hash (e ∷ es) entry k (he, h) p = elim (Bool-cases (ct_eq e.hash hash)) [
  | inl same ↦
      let is : e ≡ entry = ground (arith, rw same at p) in
      (
        inl is,
        subst (λ (x : Entry). x.hash ≡ hash) is ((ct_eq_iff e.hash hash (ground arith)).0 same),
      )
  | inr other ↦ let (later, is) = find_entry hash es entry k h (rw other at p) in (inr later, is)
]

pub find_token-IsFound :
    (sha256 : Text → List ℕ) (store : TokenStore) (secret : Text) (token : StoredToken)
    → length (sha256 secret) ≡ 32
    → HasHashes store
    → find_token sha256 store secret ≡ some token
    → IsFound sha256 store secret token
unfolding find_token
find_token-IsFound sha256 store secret token k h p =
    elim (Option-cases (find (λ (e : Entry). ct_eq e.hash (sha256 secret)) store.entries)) [
      | inl nothing ↦ cc (rw nothing at p)
      | inr (entry, q) ↦
          let (present, same) = find_entry (sha256 secret) store.entries entry k h q in
          record {
            entry = entry;
            present = present;
            hash_is = same;
            token_is = ground (arith, rw q at p);
          }
    ]

starts_read : (p : Permission) → starts_with (permission_id p) (codes "read:") ≡ not (is_mutating p)
unfolding permission_id is_mutating
starts_read read_health = refl
starts_read read_version = refl
starts_read read_system = refl
starts_read read_services = refl
starts_read read_updates = refl
starts_read manage_updates = refl

-- The token names the permission, or it names `read_all` and the permission changes nothing.
abbrev pub IsGranted : Permission → StoredToken → Type 0
IsGranted p token =
    Some (λ q. (q ≡ permission_id p) ⊎ ((q ≡ codes "read_all") × (is_mutating p ≡ false)))
      token.permissions

grants_iff :
    (token : StoredToken) (p : Permission)
    → (grants token (permission_id p) ≡ true) ↔ IsGranted p token
unfolding grants
grants_iff token p = (any→Some _ _ token.permissions there, Some→any _ _ token.permissions back)
  where
    there :
        (q : Text)
        → (text_eq q (permission_id p)
            || (text_eq q (codes "read_all") && starts_with (permission_id p) (codes "read:")))
          ≡ true
        → (q ≡ permission_id p) ⊎ ((q ≡ codes "read_all") × (is_mutating p ≡ false))
    there q h = elim (Bool-cases (text_eq q (permission_id p))) [
      | inl e ↦ inl ((text_eq_iff q (permission_id p)).0 e)
      | inr e ↦
          let both = rw (e, starts_read p) at h in
          let (all, reads) = &&-eq-true (text_eq q (codes "read_all")) (not (is_mutating p)) both in
          inr ((text_eq_iff q (codes "read_all")).0 all, not-eq-true (is_mutating p) reads)
    ]

    back :
        (q : Text)
        → (q ≡ permission_id p) ⊎ ((q ≡ codes "read_all") × (is_mutating p ≡ false))
        → (text_eq q (permission_id p)
            || (text_eq q (codes "read_all") && starts_with (permission_id p) (codes "read:")))
          ≡ true
    back q (inl e) = rw ((text_eq_iff q (permission_id p)).1 e) refl
    back q (inr (e, reads)) =
        rw ((text_eq_iff q (codes "read_all")).1 e, starts_read p, reads)
          (or-true (text_eq q (permission_id p)))

-- Without a token store only what changes nothing is trusted; with one, the secret must belong to a
-- token that is granted the permission.
abbrev pub IsTrusted : (Text → List ℕ) → Permission → Option Text → Option TokenStore → Type 0
IsTrusted sha256 p bearer none = is_mutating p ≡ false
IsTrusted sha256 p bearer (some store) =
    (secret : Text) × (token : StoredToken) × (bearer ≡ some secret)
    × (find_token sha256 store secret ≡ some token)
    × IsGranted p token

decide_store→IsTrusted :
    (sha256 : Text → List ℕ) (p : Permission) (bearer : Option Text) (store : Option TokenStore)
    → decide_store sha256 p bearer store ≡ allowed
    → IsTrusted sha256 p bearer store
unfolding decide_store decide_bearer decide_token
decide_store→IsTrusted sha256 p bearer none h = elim (Bool-cases (is_mutating p)) [
  | inl e ↦ cc (rw e at h)
  | inr e ↦ e
]
decide_store→IsTrusted sha256 p none (some store) h = cc
decide_store→IsTrusted sha256 p (some secret) (some store) h =
    elim (Option-cases (find_token sha256 store secret)) [
      | inl e ↦ cc (rw e at h)
      | inr (token, e) ↦ elim (Bool-cases (grants token (permission_id p))) [
        | inl g ↦ (secret, token, refl, e, (grants_iff token p).0 g)
        | inr g ↦ cc (rw (e, g) at h)
      ]
    ]

IsTrusted→decide_store :
    (sha256 : Text → List ℕ) (p : Permission) (bearer : Option Text) (store : Option TokenStore)
    → IsTrusted sha256 p bearer store
    → decide_store sha256 p bearer store ≡ allowed
unfolding decide_store decide_bearer decide_token
IsTrusted→decide_store sha256 p bearer none h = rw h refl
IsTrusted→decide_store sha256 p bearer (some store) (secret, token, b, found, granted) =
    rw (b, found, (grants_iff token p).1 granted) refl

-- A request is allowed exactly when it comes from the loopback interface and is trusted.
pub authorize_iff :
    (sha256 : Text → List ℕ) (peer : IpAddr) (p : Permission) (bearer : Option Text)
    (store : Option TokenStore)
    → (authorize sha256 peer p bearer store ≡ allowed)
      ↔ ((is_loopback peer ≡ true) × IsTrusted sha256 p bearer store)
unfolding authorize
authorize_iff sha256 peer p bearer store = (
  λ h. elim (Bool-cases (is_loopback peer)) [
    | inl e ↦ (e, decide_store→IsTrusted sha256 p bearer store (rw e at h))
    | inr e ↦ cc (rw e at h)
  ],
  λ (e, t). rw e (IsTrusted→decide_store sha256 p bearer store t),
)

pub mutating-IsNamed :
    (p : Permission) (token : StoredToken)
    → is_mutating p ≡ true
    → IsGranted p token
    → Some (λ q. q ≡ permission_id p) token.permissions
mutating-IsNamed p token m = Some-mono _ (λ q. q ≡ permission_id p) token.permissions named
  where
    named :
        (q : Text)
        → (q ≡ permission_id p) ⊎ ((q ≡ codes "read_all") × (is_mutating p ≡ false))
        → q ≡ permission_id p
    named q (inl e) = e
    named q (inr (_, reads)) = cc

-- What changes the system is allowed only for a secret whose hash stands in the token file, with a
-- token that names the permission itself, for a peer on the loopback interface. Hashes have 32 bytes.
pub authorize_mutating :
    (sha256 : Text → List ℕ) (peer : IpAddr) (p : Permission) (bearer : Option Text)
    (tokens : Option TokenStore)
    → ((s : Text) → length (sha256 s) ≡ 32)
    → ((store : TokenStore) → tokens ≡ some store → HasHashes store)
    → is_mutating p ≡ true
    → authorize sha256 peer p bearer tokens ≡ allowed
    → (is_loopback peer ≡ true)
      × (store : TokenStore) × (secret : Text) × (token : StoredToken) × (tokens ≡ some store)
      × (bearer ≡ some secret)
      × IsFound sha256 store secret token
      × Some (λ q. q ≡ permission_id p) token.permissions
authorize_mutating sha256 peer p bearer none k h m a =
    cc ((authorize_iff sha256 peer p bearer none).0 a).1
authorize_mutating sha256 peer p bearer (some store) k h m a =
    let (local, (secret, token, b, found, granted)) =
      (authorize_iff sha256 peer p bearer (some store)).0 a in
    (
      local,
      store,
      secret,
      token,
      refl,
      b,
      find_token-IsFound sha256 store secret token (k secret) (h store refl) found,
      mutating-IsNamed p token m granted,
    )

-- The refusals: a decision has an error body exactly when it is not `allowed`, and the status is 401
-- exactly when a valid token is missing.
pub into_denial_iff :
    (d : Decision) (p : Permission)
    → ((into_denial d p ≡ none) ↔ (d ≡ allowed))
      × (((body : ApiErrorDetail) × (into_denial d p ≡ some body) × (http_status body.code ≡ 401))
          ↔ (d ≡ authentication_required))
unfolding into_denial
into_denial_iff d p = (
  (λ h. ground arith, λ h. ground arith),
  (λ (body, e, s). ground arith, λ h. rw h (_, refl, refl)),
)
