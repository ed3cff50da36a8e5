-- ===== src/Aborad/Auth.antt =====
-- services/aborad/src/auth.rs: the one place where a request is admitted or refused.
pub mod Rules
use abora_framework.Common.{
  ℕ, ◌==◌, Bool, true, false, not, List, ◌++◌, Option, none, some, Text, codes, if◌then◌else◌,
}
use abora_framework.Api.{ErrorCode, unauthorized, forbidden, ApiErrorDetail, error_body}
use abora_framework.Aborad.Tokens.{StoredToken, TokenStore, grants, find_token}

pub data Permission : Type 0 where
  read_health read_version read_system read_services read_updates manage_updates : Permission

unfoldable pub permission_id : Permission → Text
permission_id read_health = codes "read:health"
permission_id read_version = codes "read:version"
permission_id read_system = codes "read:system"
permission_id read_services = codes "read:services"
permission_id read_updates = codes "read:updates"
permission_id manage_updates = codes "manage:updates"

unfoldable pub is_mutating : Permission → Bool
is_mutating read_health = false
is_mutating read_version = false
is_mutating read_system = false
is_mutating read_services = false
is_mutating read_updates = false
is_mutating manage_updates = true

-- `std::net::IpAddr`: four bytes, or a number of 128 bits
pub data IpAddr : Type 0 where
  v4 : ℕ → ℕ → ℕ → ℕ → IpAddr
  v6 : ℕ → IpAddr

-- `127.0.0.0/8`, and `::1`
abbrev pub is_loopback : IpAddr → Bool
is_loopback (v4 a b c d) = a == 127
is_loopback (v6 n) = n == 1

pub data Decision : Type 0 where
  allowed remote_not_allowed authentication_required : Decision
  insufficient_permission tokens_required : Decision

-- after the lookup of the secret
decide_token : Permission → Option StoredToken → Decision
decide_token permission none = authentication_required
decide_token permission (some token) =
    if grants token (permission_id permission) then allowed else insufficient_permission

-- with a token store
decide_bearer : (Text → List ℕ) → Permission → Option Text → TokenStore → Decision
unfolding decide_token
decide_bearer sha256 permission none store = authentication_required
decide_bearer sha256 permission (some bearer) store =
    decide_token permission (find_token sha256 store bearer)

decide_store : (Text → List ℕ) → Permission → Option Text → Option TokenStore → Decision
unfolding decide_bearer is_mutating
decide_store sha256 permission bearer none =
    if is_mutating permission then tokens_required else allowed
decide_store sha256 permission bearer (some store) = decide_bearer sha256 permission bearer store

unfoldable pub authorize :
    (Text → List ℕ) → IpAddr → Permission → Option Text → Option TokenStore → Decision
unfolding decide_store
authorize sha256 peer permission bearer store =
    if not (is_loopback peer)
    then remote_not_allowed
    else decide_store sha256 permission bearer store

unfoldable pub into_denial : Decision → Permission → Option ApiErrorDetail
into_denial allowed permission = none
into_denial remote_not_allowed permission = some (
    error_body forbidden (
      codes "operation `"
      ++ permission_id permission
      ++ codes "` is not allowed for remote clients; remote management is not enabled"))
into_denial authentication_required permission = some (
    error_body unauthorized
      (codes "operation `" ++ permission_id permission ++ codes "` requires a valid bearer token"))
into_denial tokens_required permission = some (
    error_body forbidden (
      codes "operation `"
      ++ permission_id permission
      ++ codes
          "` changes the system and requires token authentication; configure [security] token_file and use a token that grants it"))
into_denial insufficient_permission permission = some (
    error_body forbidden (
      codes "token is authenticated but not authorized for `"
      ++ permission_id permission
      ++ codes "`"))
