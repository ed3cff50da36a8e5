-- ===== src/Aborad/Server.antt =====
-- services/aborad/src/server.rs: the routes, the enforcement of the authorization decision before
-- every handler, and the request ids. Routing itself, headers and sockets are axum's.
pub mod Enforcement
pub mod RequestIds
use abora_framework.Common.{
  ℕ, ◌+◌, ◌==◌, leb, Bool, true, false, not, ◌&&◌, ◌||◌, List, Option, none, some, Text, codes,
  text_eq, len, all, is_empty, trim, split_once, is_ascii_alphanumeric, is_ascii_uppercase,
  if◌then◌else◌, map, and_then,
}
use abora_framework.Api.{ApiErrorDetail}
use abora_framework.Aborad.Tokens.{StoredToken, TokenStore, find_token, hex_encode}
use abora_framework.Aborad.Auth.{
  Permission, read_health, read_version, read_system, read_services, read_updates, manage_updates,
  remote_not_allowed, authentication_required, insufficient_permission, tokens_required, IpAddr, v4,
  Decision, allowed, authorize, into_denial,
}

pub data Handler : Type 0 where
  health version system services service_detail apply_updates updates : Handler

-- the permission that `build` pairs with each handler
unfoldable pub permission_of : Handler → Permission
permission_of health = read_health
permission_of version = read_version
permission_of system = read_system
permission_of services = read_services
permission_of service_detail = read_services
permission_of apply_updates = manage_updates
permission_of updates = read_updates

-- `eq_ignore_ascii_case`
abbrev to_ascii_lowercase : ℕ → ℕ
to_ascii_lowercase c = if is_ascii_uppercase c then c + 32 else c

abbrev nonempty : Text → Option Text
nonempty token = if is_empty token then none else some token

unfoldable pub bearer_value : Text → Option Text
bearer_value header = and_then (split_once b' ' header) λ (scheme, rest).
    if not (text_eq (map to_ascii_lowercase scheme) (codes "bearer"))
    then none
    else nonempty (trim rest)

-- What the enforcement reads of a request: the peer, where it is known, and the header.
pub record Request : Type 0 where
  pub peer : Option IpAddr
  pub authorization : Option Text

-- `0.0.0.0` where it is not known
abbrev pub peer_of : Option IpAddr → IpAddr
peer_of none = v4 0 0 0 0
peer_of (some ip) = ip

abbrev pub bearer_of : Option Text → Option Text
bearer_of none = none
bearer_of (some header) = bearer_value header

-- A token store counts only where authentication is required.
abbrev pub enforced_store : Bool → Option TokenStore → Option TokenStore
enforced_store true tokens = tokens
enforced_store false tokens = none

abbrev pub name_or_placeholder : Option Text → Text
name_or_placeholder none = codes "unnamed token"
name_or_placeholder (some name) = name

abbrev pub caller_of_token : Option StoredToken → Text
caller_of_token none = codes "loopback (no token)"
caller_of_token (some token) = name_or_placeholder token.name

-- `store.zip(bearer).and_then(…).map(…)`, and the caller that an admitted request carries
pub caller_of : (Text → List ℕ) → Option TokenStore → Option Text → Text
caller_of sha256 none bearer = codes "loopback (no token)"
caller_of sha256 (some store) none = codes "loopback (no token)"
caller_of sha256 (some store) (some secret) = caller_of_token (find_token sha256 store secret)

-- The handler runs for a caller, or the request is answered with an error.
pub data Verdict : Type 0 where
  admit : Handler → Text → Verdict
  deny : ApiErrorDetail → Verdict
  internal_error : Verdict

denied : Option ApiErrorDetail → Verdict
denied none = internal_error
denied (some body) = deny body

verdict : Handler → Text → Decision → Verdict
unfolding denied
verdict handler caller allowed = admit handler caller
verdict handler caller remote_not_allowed =
    denied (into_denial remote_not_allowed (permission_of handler))
verdict handler caller authentication_required =
    denied (into_denial authentication_required (permission_of handler))
verdict handler caller insufficient_permission =
    denied (into_denial insufficient_permission (permission_of handler))
verdict handler caller tokens_required =
    denied (into_denial tokens_required (permission_of handler))

-- `authorize` of this file, for the handler that the routing chose
unfoldable pub enforce : (Text → List ℕ) → Bool → Option TokenStore → Handler → Request → Verdict
unfolding verdict caller_of
enforce sha256 require_authentication tokens handler req =
    let store = enforced_store require_authentication tokens in
    let bearer = bearer_of req.authorization in
    verdict handler (caller_of sha256 store bearer)
      (authorize sha256 (peer_of req.peer) (permission_of handler) bearer store)

abbrev is_request_id_char : ℕ → Bool
is_request_id_char c = is_ascii_alphanumeric c || c == b'-' || c == b'_' || c == b'.' || c == b':'

unfoldable pub incoming_request_id : Text → Bool
incoming_request_id value =
    not (is_empty value) && (leb (len value) 128 && all is_request_id_char value)

-- A caller's own id is kept if it is acceptable; otherwise eight bytes, random or mixed from time,
-- process and a counter, are printed.
unfoldable pub request_id : Option Text → List ℕ → Text
request_id none bytes = hex_encode bytes
request_id (some value) bytes = if incoming_request_id value then value else hex_encode bytes
