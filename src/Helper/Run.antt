-- ===== src/Helper/Run.antt =====
-- `run` of services/abora-apply/src/main.rs: how the outcome is carried out.
pub mod Reboots
use abora_framework.Common.{
  ℕ, Bool, true, false, not, ◌&&◌, List, [], ◌∷◌, ◌++◌, map, Option, none, some, Result, ok, err,
  Text, codes, text_eq, length, is_empty, any, filter, if◌then◌else◌,
}
use abora_framework.Common.Decimal.{show}
use abora_framework.Config.Settings.{Config}
use abora_framework.Config.Schedule.{LocalTime, Permissions, permissions}
use abora_framework.Update.Host.{PackageUpgrade, parse_simulation}
use abora_framework.Update.Apply.{
  ApplyRequest, ApplyResult, FileNode, ReadError, RequestError, max_request_age, valid_request_id,
  validate_request, install_args, read_regular_file, read_message, request_message,
}
use abora_framework.Helper.{
  Event, command, write_result, remove_request, Ctx, Outcome, State, apt_get, simulate_args,
}
use abora_framework.Helper.Process.{process, run_command}

pub data RunError : Type 0 where
  not_written : Text → RunError
  reboot_failed : Text → RunError

abbrev pub systemctl : Text
systemctl = codes "systemctl"

abbrev pub reboot_args : List Text
reboot_args = codes "reboot" ∷ []

reboot_outcome : Result Text Text → Result (Unit {0}) RunError
reboot_outcome (ok out) = ok tt
reboot_outcome (err e) = err (reboot_failed e)

module _ {W : Type 0} (ctx : Ctx W) where
  -- the end of `run`: the result is written, then the request is removed, then the reboot starts
  after_write : Outcome → Result (Unit {0}) Text → State W → Result (Unit {0}) RunError × State W
  unfolding reboot_outcome
  after_write outcome (err e) s = (err (not_written e), s)
  after_write outcome (ok _) s =
      let s' : State W = record {
        world = ctx.remove_file s.world;
        events = s.events ++ remove_request ∷ [];
      } in
      let (result, s'') = run_command ctx systemctl reboot_args s' in
      if outcome.reboot then (reboot_outcome result, s'') else (ok tt, s')

  carry_out : Option Outcome × State W → Result (Unit {0}) RunError × State W
  carry_out (none, s) = (ok tt, s)
  carry_out (some outcome, s) =
      let (result, world) = ctx.write_atomic outcome.result s.world in
      after_write outcome result
        (record { world = world; events = s.events ++ write_result outcome.result ∷ [] })

  unfoldable pub run : State W → Result (Unit {0}) RunError × State W
  unfolding after_write carry_out run_command
  run s = carry_out (process ctx s)
