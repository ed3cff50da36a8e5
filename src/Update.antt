-- ===== src/Update.antt =====
-- crates/abora-update/src/lib.rs: the shared vocabulary of updates.
pub mod Host
pub mod Apply
pub mod Store
mod Tests
use abora_framework.Common.{ℕ, ◌≡◌, ◌↔◌, Bool, true, List, Option, Text, ◌==◌, arith}
use abora_framework.Core.Version.{Version}

pub data Channel : Type 0 where
  stable beta nightly : Channel
  custom : Text → Channel

pub data RebootPolicy : Type 0 where
  ask always never : RebootPolicy

pub data Weekday : Type 0 where
  monday tuesday wednesday thursday friday saturday sunday : Weekday

abbrev number_of : Weekday → ℕ
number_of monday = 1
number_of tuesday = 2
number_of wednesday = 3
number_of thursday = 4
number_of friday = 5
number_of saturday = 6
number_of sunday = 7

-- The derived `PartialEq`.
abbrev pub weekday_eq : Weekday → Weekday → Bool
weekday_eq a b = number_of a == number_of b

pub weekday_eq_iff : (a b : Weekday) → (weekday_eq a b ≡ true) ↔ (a ≡ b)
weekday_eq_iff a b = (λ h. ground arith, λ h. ground arith)

pub record MaintenanceWindow : Type 0 where
  pub days : List Weekday
  pub start : Text
  pub end : Text
  pub max_duration_minutes : Option ℕ

pub record AvailableUpdate : Type 0 where
  pub channel : Channel
  pub version : Version
  pub component : Text
  pub summary : Text
  pub release_notes : Option Text
  pub size_bytes : ℕ
  pub released_at : Option Text
  pub checksums : Option (List Text)

pub record AvailableUpdates : Type 0 where
  pub channel : Channel
  pub updates : List AvailableUpdate

pub data UpdateStatus : Type 0 where
  up_to_date : UpdateStatus
  update_available : List Text → UpdateStatus
  installing : Text → Option ℕ → UpdateStatus
  error : Text → UpdateStatus

pub record RebootStatus : Type 0 where
  pub required : Bool
  pub reason : Option Text
  pub pending_since : Option Text

pub record UpdateHistoryEntry : Type 0 where
  pub applied_at : Text
  pub from_version : Version
  pub to_version : Version
  pub channel : Channel
  pub component : Text
  pub succeeded : Bool
  pub note : Option Text
