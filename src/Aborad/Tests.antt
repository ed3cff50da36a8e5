-- ===== src/Aborad/Tests.antt =====
-- A daemon whose token file names one operator, asked by that operator. A fixed list of 32 bytes
-- stands for every hash.
use abora_framework.Common.{
  ◌++◌, err, ℕ, zero, suc, ◌<◌, ◌≡◌, ◌↔◌, refl, arith, true, List, [], ◌∷◌, some, Result, ok, Text,
  codes, All, subst,
}
use abora_framework.Aborad.Tokens.{
  slice_panic, StoredToken, TokenStore, RawToken, ct_eq, find_token, grants, decode_sha256_hex,
  sha256_hex, from_str,
}
use abora_framework.Aborad.Tokens.Hex.{HasHashes, decode_sha256_hex-sha256_hex}
use abora_framework.Aborad.Auth.{
  manage_updates, permission_id, is_mutating, v4, is_loopback, allowed, authorize,
}
use abora_framework.Aborad.Auth.Rules.{IsTrusted, authorize_iff}
use abora_framework.Aborad.Server.{
  apply_updates, permission_of, Request, admit, bearer_value, bearer_of, caller_of, enforce,
}
use abora_framework.Aborad.Server.Enforcement.{
  IsVerdict, IsAuthenticated, enforce-IsVerdict, enforce_mutating,
}

abbrev sevens : ℕ → List ℕ
sevens zero = []
sevens (suc n) = 7 ∷ sevens n

sevens-bytes : (n : ℕ) → All (λ b. b < 256) (sevens n)
sevens-bytes zero = tt
sevens-bytes (suc n) = (omega arith, sevens-bytes n)

abbrev toy_sha256 : Text → List ℕ
toy_sha256 s = sevens 32

abbrev operator : StoredToken
operator = record {
  name = some (codes "operator");
  permissions = codes "read_all" ∷ codes "manage:updates" ∷ [];
}

abbrev store : TokenStore
store = record { entries = record { token = operator; hash = sevens 32 } ∷ [] }

store-HasHashes : (s : TokenStore) → some store ≡ some s → HasHashes s
store-HasHashes s e = let same : store ≡ s = cc in subst HasHashes same (refl, tt)

abbrev request : Request
request = record { peer = some (v4 127 0 0 1); authorization = some (codes "bearer  secret ") }

header_parsed : bearer_value (codes "bearer  secret ") ≡ some (codes "secret")
unfolding bearer_value
header_parsed = refl

operator_allowed :
    authorize toy_sha256 (v4 127 0 0 1) manage_updates (some (codes "secret")) (some store)
    ≡ allowed
unfolding authorize find_token grants permission_id ct_eq
operator_allowed = refl

request_admitted :
    enforce toy_sha256 true (some store) apply_updates request
    ≡ admit apply_updates (codes "operator")
unfolding enforce authorize find_token grants permission_id ct_eq permission_of bearer_value
request_admitted = refl

manage-is_mutating : is_mutating manage_updates ≡ true
unfolding is_mutating
manage-is_mutating = refl

apply-is_mutating : is_mutating (permission_of apply_updates) ≡ true
unfolding is_mutating permission_of
apply-is_mutating = refl

decode_sha256_hex-sha256_hex_example :
    decode_sha256_hex (sha256_hex toy_sha256 (codes "secret")) ≡ ok (sevens 32)
decode_sha256_hex-sha256_hex_example =
    decode_sha256_hex-sha256_hex toy_sha256 (codes "secret") refl (sevens-bytes 32)

abbrev raw : RawToken
raw = record {
  raw_name = some (codes "operator");
  raw_permissions = codes "read_all" ∷ codes "manage:updates" ∷ [];
  secret_hash = codes "sha256:0707070707070707070707070707070707070707070707070707070707070707";
}

abbrev toy_toml : Text → Result (List RawToken) Text
toy_toml text = ok (raw ∷ [])

file_loaded : from_str toy_toml (codes "tokens") ≡ ok store
unfolding from_str decode_sha256_hex
file_loaded = refl

authorize_iff_example :
    (authorize toy_sha256 (v4 127 0 0 1) manage_updates (some (codes "secret")) (some store)
      ≡ allowed)
    ↔ ((is_loopback (v4 127 0 0 1) ≡ true)
        × IsTrusted toy_sha256 manage_updates (some (codes "secret")) (some store))
authorize_iff_example =
    authorize_iff toy_sha256 (v4 127 0 0 1) manage_updates (some (codes "secret")) (some store)

enforce-IsVerdict_example :
    IsVerdict apply_updates
      (caller_of toy_sha256 (some store) (bearer_of request.authorization))
      (authorize toy_sha256
        (v4 127 0 0 1)
        (permission_of apply_updates)
        (bearer_of request.authorization)
        (some store))
      (enforce toy_sha256 true (some store) apply_updates request)
enforce-IsVerdict_example = enforce-IsVerdict toy_sha256 true (some store) apply_updates request

enforce_mutating_example :
    (apply_updates ≡ apply_updates)
    × IsAuthenticated toy_sha256 true
        (some store)
        (permission_of apply_updates)
        request
        (codes "operator")
enforce_mutating_example =
    enforce_mutating toy_sha256 true (some store) apply_updates apply_updates request
      (codes "operator") (λ s. refl) store-HasHashes apply-is_mutating request_admitted

abbrev a_times : ℕ → Text
a_times zero = []
a_times (suc n) = b'a' ∷ a_times n

-- 64 bytes, of which the second and third are one character
split_character : decode_sha256_hex (codes "sha256:" ++ b'a' ∷ 0xe9 ∷ a_times 61) ≡ err slice_panic
unfolding decode_sha256_hex
split_character = refl

-- a sign in the place of a digit
sign_accepted :
    decode_sha256_hex
      (codes "sha256:+f07070707070707070707070707070707070707070707070707070707070707")
    ≡ ok (15 ∷ sevens 31)
unfolding decode_sha256_hex
sign_accepted = refl
