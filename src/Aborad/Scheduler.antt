-- ===== src/Aborad/Scheduler.antt =====
-- services/aborad/src/scheduler.rs: one turn of the loop. Instants are nanoseconds of a clock that
-- does not go back. A blocking task that panics, which the loop takes for a failure, is left out, and
-- so is what is logged.
pub mod Turns
pub mod Runs
mod Tests
use abora_framework.Common.{
  ℕ, ◌-◌, ◌/◌, Bool, true, false, List, Option, none, some, Result, ok, err, Text, codes,
  if◌then◌else◌,
}
use abora_framework.Config.Settings.{Config}
use abora_framework.Config.Schedule.{
  LocalTime, Permissions, permissions, check_interval, check_is_due, should_auto_apply,
}
use abora_framework.Update.Apply.{ApplyRequest, ApplyResult, FileNode}
use abora_framework.Update.Store.{StoreData, StoreError}
use abora_framework.Api.{ScheduleInfo}
use abora_framework.Aborad.State.{UpdatesState, request_apply, ingest_apply_result}
use abora_framework.Aborad.Updates.{Updates, refresh, set_schedule, apply_inputs}

-- what the loop keeps between its turns
pub record Schedule : Type 0 where
  pub last_attempt : Option ℕ
  pub last_ok : Bool
  pub previous : Option Permissions
  pub last_auto_attempt : Option ℕ

abbrev pub first_schedule : Schedule
first_schedule = record {
  last_attempt = none;
  last_ok = true;
  previous = none;
  last_auto_attempt = none;
}

-- What one turn reads, in the order in which it reads it.
pub record Turn : Type 0 where
  pub config : Config
  pub local_time : Option LocalTime
  pub result_node : Result FileNode Text
  pub due_at : ℕ
  pub attempt_at : ℕ
  pub output : Result Text Text
  pub checked_at : Text
  pub pending : Bool
  pub auto_at : ℕ
  pub auto_attempt_at : ℕ
  pub pending_again : Bool
  pub apply_time : Option LocalTime
  pub id : Text
  pub now : Text

-- `duration_since` is 0 where it would be negative
abbrev pub elapsed : ℕ → ℕ → ℕ
elapsed now t = now - t

abbrev pub since : ℕ → Option ℕ → Option ℕ
since now none = none
since now (some t) = some (elapsed now t)

abbrev pub due : ℕ → Bool → ℕ → Option ℕ → Bool
due now last_ok interval none = true
due now last_ok interval (some t) = check_is_due (elapsed now t) last_ok interval

abbrev pub as_secs : ℕ → ℕ
as_secs t = t / 1000000000

abbrev pub info_of : ℕ → Permissions → ScheduleInfo
info_of interval perms = record {
  check_interval_seconds = as_secs interval;
  in_maintenance_window = perms.in_maintenance_window;
  apply_permitted = perms.apply_permitted;
  installs_permitted = perms.installs_permitted;
  reboot_permitted = perms.reboot_permitted;
}

abbrev pub caller : Text
caller = codes "automatic (scheduler)"

abbrev has_succeeded : Result ℕ Text → Bool
has_succeeded (ok n) = true
has_succeeded (err e) = false

module _ (save : Text → StoreData → Result (Unit {0}) StoreError)
    (from_slice : List ℕ → Option ApplyResult) (write : ApplyRequest → Result (Unit {0}) Text) where
  -- the result of an apply is taken up
  pub take_up : Turn → Schedule → Updates → Schedule × Updates
  take_up t s u =
      let (ingested, state) =
        ingest_apply_result save t.config.updates.channel from_slice t.result_node u.state in
      (
        record s { last_attempt = if ingested then none else s.last_attempt },
        record u { state = state },
      )

  -- a check, if one is due
  pub check_if_due : Turn → Schedule × Updates → Schedule × Updates
  check_if_due t (s, u) =
      let (u', result) = refresh save t.config.updates.channel t.checked_at t.output u in
      if due t.due_at s.last_ok (check_interval t.config) s.last_attempt
      then (record s { last_attempt = some t.attempt_at; last_ok = has_succeeded result }, u')
      else (s, u)

  -- an automatic apply, if one is permitted; with the request that is written, if one is
  pub apply_if_permitted :
      Turn → Permissions → Schedule × Updates → Schedule × Updates × Option ApplyRequest
  apply_if_permitted t perms (s, u) =
      let (has_available, pending) = apply_inputs t.pending u in
      if should_auto_apply perms has_available pending (since t.auto_at s.last_auto_attempt)
        (check_interval t.config)
      then (
        record s { last_auto_attempt = some t.auto_attempt_at },
        u,
        (request_apply write u.state t.config caller false t.pending_again t.apply_time t.id
            t.now).1,
      )
      else (s, u, none)

  unfoldable pub turn : Turn → Schedule → Updates → Schedule × Updates × Option ApplyRequest
  unfolding take_up check_if_due apply_if_permitted
  turn t s u =
      let perms = permissions t.config t.local_time in
      let u' = set_schedule (info_of (check_interval t.config) perms) u in
      apply_if_permitted t perms
        (check_if_due t (take_up t (record s { previous = some perms }) u'))
