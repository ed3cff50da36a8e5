-- ===== src/Config/Schedule.antt =====
-- crates/abora-config/src/schedule.rs: what the update policy allows at one moment. A `Duration`
-- is its nanoseconds; running `date` is outside, its output is parsed here.
pub mod Windows
pub mod Policy
mod Tests
use abora_framework.Common.{
  ℕ, ◌+◌, ◌*◌, Bool, true, false, not, ◌&&◌, Option, none, some, List, Result, ok, err, and_then,
  Text, codes, text_eq, trim, split_once, any, ltb, leb, min, if◌then◌else◌,
}
use abora_framework.Common.Decimal.{parse_uint, u32_limit}
use abora_framework.Update.{
  Weekday, monday, tuesday, wednesday, thursday, friday, saturday, sunday, weekday_eq,
  MaintenanceWindow, RebootPolicy, ask, always, never,
}
use abora_framework.Config.Clock.{parse_clock}
use abora_framework.Config.Duration.{parse_duration}
use abora_framework.Config.Settings.{Config}

-- `Duration::from_secs`
abbrev pub from_secs : ℕ → ℕ
from_secs n = n * 1000000000

pub record LocalTime : Type 0 where
  pub weekday : Weekday
  pub minutes : ℕ

pub record Permissions : Type 0 where
  pub in_maintenance_window : Option Bool
  pub apply_permitted : Bool
  pub installs_permitted : Bool
  pub reboot_permitted : Bool

weekday_of : Text → Option Weekday
weekday_of day =
    if text_eq day (codes "1")
    then some monday
    else if text_eq day (codes "2")
    then some tuesday
    else if text_eq day (codes "3")
    then some wednesday
    else if text_eq day (codes "4")
    then some thursday
    else if text_eq day (codes "5")
    then some friday
    else if text_eq day (codes "6")
    then some saturday
    else if text_eq day (codes "7")
    then some sunday
    else none

-- `(hour < 24 && minute < 60).then_some(…)`
time_of : Weekday → ℕ → ℕ → Option LocalTime
time_of weekday hour minute =
    if ltb hour 24 && ltb minute 60
    then some (record { weekday = weekday; minutes = hour * 60 + minute })
    else none

unfoldable pub parse_date_output : Text → Option LocalTime
unfolding weekday_of time_of parse_uint
parse_date_output text = and_then (split_once b' ' (trim text)) λ (day, clock).
    and_then (split_once b':' clock) λ (hour, minute). and_then (weekday_of day) λ weekday.
      and_then (parse_uint u32_limit hour)
        λ h. and_then (parse_uint u32_limit minute) λ m. time_of weekday h m

-- `w.days.contains(&now.weekday) && start <= now.minutes && now.minutes < end`
abbrev pub window_holds : MaintenanceWindow → LocalTime → ℕ → ℕ → Bool
window_holds w now start end =
    any (λ day. weekday_eq day now.weekday) w.days && (leb start now.minutes && ltb now.minutes end)

-- A window whose clocks do not parse is ignored.
in_one_window : LocalTime → MaintenanceWindow → Bool
in_one_window now w = elim (parse_clock w.start) [
  | err e ↦ false
  | ok start ↦ elim (parse_clock w.end) [ err e ↦ false | ok end ↦ window_holds w now start end ]
]

unfoldable pub in_window : List MaintenanceWindow → LocalTime → Bool
unfolding in_one_window
in_window windows now = any (in_one_window now) windows

-- `now.map(…) == Some(true)`
abbrev in_enforced_window : Config → Option LocalTime → Bool
in_enforced_window c none = false
in_enforced_window c (some t) = c.maintenance.enabled && in_window c.maintenance.windows t

abbrev window_report : Config → Option LocalTime → Option Bool
window_report c none = none
window_report c (some t) = some (in_window c.maintenance.windows t)

abbrev reboot_allowed : RebootPolicy → Bool → Bool
reboot_allowed always in_win = true
reboot_allowed never in_win = false
reboot_allowed ask in_win = in_win

unfoldable pub permissions : Config → Option LocalTime → Permissions
permissions c now =
    let in_win = in_enforced_window c now in
    record {
      in_maintenance_window = window_report c now;
      apply_permitted = in_win;
      installs_permitted = c.updates.automatic && in_win;
      reboot_permitted = reboot_allowed c.updates.reboot_policy in_win;
    }

unfoldable pub check_interval : Config → ℕ
unfolding parse_duration
check_interval c = elim (parse_duration c.updates.check_interval) [
  | ok n ↦ from_secs n
  | err e ↦ from_secs (6 * 60 * 60)
]

abbrev at_least : ℕ → Option ℕ → Bool
at_least interval none = true
at_least interval (some t) = leb interval t

unfoldable pub should_auto_apply : Permissions → Bool → Bool → Option ℕ → ℕ → Bool
should_auto_apply perms has_available apply_pending since_last_attempt interval =
    perms.installs_permitted
    && (has_available && (not apply_pending && at_least interval since_last_attempt))

abbrev pub retry_after_failure : ℕ
retry_after_failure = from_secs (15 * 60)

unfoldable pub check_is_due : ℕ → Bool → ℕ → Bool
check_is_due since_last_attempt last_succeeded interval =
    leb (if last_succeeded then interval else min interval retry_after_failure) since_last_attempt
