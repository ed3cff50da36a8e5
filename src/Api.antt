-- ===== src/Api.antt =====
-- crates/abora-api/src/lib.rs: the error envelope of the HTTP API, health and updates.
use abora_framework.Common.{ℕ, Bool, List, Option, none, Text}
use abora_framework.Update.{UpdateStatus, RebootStatus, AvailableUpdate, UpdateHistoryEntry}

pub data ErrorCode : Type 0 where
  invalid_request unauthorized forbidden not_found conflict : ErrorCode
  not_implemented service_unavailable internal : ErrorCode

abbrev pub http_status : ErrorCode → ℕ
http_status invalid_request = 400
http_status unauthorized = 401
http_status forbidden = 403
http_status not_found = 404
http_status conflict = 409
http_status not_implemented = 501
http_status service_unavailable = 503
http_status internal = 500

-- `ApiErrorBody` wraps this detail alone.
pub record ApiErrorDetail : Type 0 where
  pub code : ErrorCode
  pub message : Text
  pub request_id : Option Text

-- `ApiErrorBody::new`
abbrev pub error_body : ErrorCode → Text → ApiErrorDetail
error_body code message = record { code = code; message = message; request_id = none }

pub data HealthStatus : Type 0 where
  healthy degraded maintenance : HealthStatus

pub record ComponentHealth : Type 0 where
  pub name : Text
  pub status : HealthStatus
  pub detail : Option Text

pub record ScheduleInfo : Type 0 where
  pub check_interval_seconds : ℕ
  pub in_maintenance_window : Option Bool
  pub apply_permitted : Bool
  pub installs_permitted : Bool
  pub reboot_permitted : Bool

pub record UpdatesResponse : Type 0 where
  pub status : Option UpdateStatus
  pub last_check : Option Text
  pub reboot : RebootStatus
  pub schedule : Option ScheduleInfo
  pub available : List AvailableUpdate
  pub history : List UpdateHistoryEntry
