-- ===== src/Aborad/Queries.antt =====
-- services/aborad/src/handlers.rs: the service routes. The HashMap of query parameters is the list of
-- its entries in the order in which it is read.
pub mod Orders
pub mod Answers
mod Tests
use abora_framework.Common.{
  ℕ, leb, Bool, true, false, not, ◌&&◌, List, [], ◌∷◌, ◌++◌, Option, none, some, and_then, Result,
  ok, err, ◌>>=◌, ok_or, Text, codes, text_eq, is_empty, if◌then◌else◌,
}
use abora_framework.Common.Decimal.{u64_limit, parse_uint}
use abora_framework.Api.{
  ApiErrorDetail, error_body, invalid_request, service_unavailable, not_found,
}
use abora_framework.Services.{
  ServiceState, running, stopped, failed, activating, deactivating, unknown, ServiceStatus,
  ServiceQuery, ServicesError, not_supported, systemd, parse, default_query, total_matching, apply,
  validate_unit_name,
}
use abora_framework.Services.Systemd.{Systemctl, collect}
use abora_framework.Services.Systemd.Details.{ServiceDetail, detail}

abbrev pub max_service_page : ℕ
max_service_page = 1000

abbrev pub bad_request : Text → ApiErrorDetail
bad_request message = error_body invalid_request message

-- What one parameter assigns.
pub data Setting : Type 0 where
  set_state : ServiceState → Setting
  set_enabled : Bool → Setting
  set_text : Text → Setting
  set_limit set_offset : ℕ → Setting

-- an empty `q` assigns nothing
abbrev pub put : Setting → ServiceQuery → ServiceQuery
put (set_state state) query = record query { state = some state }
put (set_enabled b) query = record query { enabled = some b }
put (set_text text) query = record query { text = if is_empty text then query.text else some text }
put (set_limit n) query = record query { limit = some n }
put (set_offset n) query = record query { offset = n }

state_setting : Text → Result Setting ApiErrorDetail
state_setting value =
    if text_eq value (codes "running")
    then ok (set_state running)
    else if text_eq value (codes "stopped")
    then ok (set_state stopped)
    else if text_eq value (codes "failed")
    then ok (set_state failed)
    else if text_eq value (codes "activating")
    then ok (set_state activating)
    else if text_eq value (codes "deactivating")
    then ok (set_state deactivating)
    else if text_eq value (codes "unknown")
    then ok (set_state unknown)
    else err (
        bad_request (
          codes
            "`state` must be one of running, stopped, failed, activating, deactivating, unknown (got `"
          ++ (value ++ codes "`)")))

enabled_setting : Text → Result Setting ApiErrorDetail
enabled_setting value =
    if text_eq value (codes "true")
    then ok (set_enabled true)
    else if text_eq value (codes "false")
    then ok (set_enabled false)
    else err (bad_request (codes "`enabled` must be true or false (got `" ++ (value ++ codes "`)")))

abbrev in_page_range : ℕ → Option ℕ
in_page_range n = if leb 1 n && leb n max_service_page then some n else none

abbrev limit_of : Option ℕ → Result Setting ApiErrorDetail
limit_of none = err (bad_request (codes "`limit` must be a number from 1 to 1000"))
limit_of (some n) = ok (set_limit n)

abbrev offset_of : Option ℕ → Result Setting ApiErrorDetail
offset_of none = err (bad_request (codes "`offset` must be a non-negative number"))
offset_of (some n) = ok (set_offset n)

setting_of : Text → Text → Result Setting ApiErrorDetail
unfolding state_setting enabled_setting
setting_of key value =
    if text_eq key (codes "state")
    then state_setting value
    else if text_eq key (codes "enabled")
    then enabled_setting value
    else if text_eq key (codes "q")
    then ok (set_text value)
    else if text_eq key (codes "limit")
    then limit_of (and_then (parse_uint u64_limit value) in_page_range)
    else if text_eq key (codes "offset")
    then offset_of (parse_uint u64_limit value)
    else err (bad_request (codes "unknown query parameter `" ++ (key ++ codes "`")))

-- the loop over the parameters
pub read_params : List (Text × Text) → ServiceQuery → Result ServiceQuery ApiErrorDetail
unfolding setting_of
read_params [] query = ok query
read_params ((key, value) ∷ params) query =
    setting_of key value >>= λ setting. read_params params (put setting query)

unfoldable pub parse_service_query : List (Text × Text) → Result ServiceQuery ApiErrorDetail
parse_service_query params = read_params params default_query

-- `Display` of ServicesError
abbrev services_message : ServicesError → Text
services_message not_supported = codes "service registry is not supported on this platform"
services_message (systemd e) = codes "could not query the system service manager: " ++ e
services_message (ServicesError.not_found n) = codes "no such unit: " ++ n
services_message (parse e) = codes "unexpected output from the system service manager: " ++ e

abbrev pub services_unavailable : ServicesError → ApiErrorDetail
services_unavailable e =
    error_body service_unavailable
      (codes "could not query the service registry: " ++ services_message e)

abbrev units_or_unavailable :
    Result (List ServiceStatus) ServicesError → Result (List ServiceStatus) ApiErrorDetail
units_or_unavailable (ok units) = ok units
units_or_unavailable (err e) = err (services_unavailable e)

-- `X-Total-Count` and the body, where `None` is a panic
unfoldable pub services :
    Systemctl → List (Text × Text) → Result (ℕ × Option (List ServiceStatus)) ApiErrorDetail
services systemctl params = do
  query ← parse_service_query params
  units ← units_or_unavailable (collect systemctl)
  ok (total_matching query units, apply query units)

abbrev detail_answer : Result ServiceDetail ServicesError → Result ServiceDetail ApiErrorDetail
detail_answer (ok d) = ok d
detail_answer (err (ServicesError.not_found n)) =
    err (error_body not_found (codes "no such service: " ++ n))
detail_answer (err not_supported) = err (services_unavailable not_supported)
detail_answer (err (systemd e)) = err (services_unavailable (systemd e))
detail_answer (err (parse e)) = err (services_unavailable (parse e))

unfoldable pub service_detail : Systemctl → Text → Result ServiceDetail ApiErrorDetail
service_detail systemctl name =
    if not (validate_unit_name name)
    then err (bad_request (codes "the service name must be a unit name ending in `.service`"))
    else detail_answer (detail systemctl name)
