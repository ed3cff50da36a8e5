-- ===== src/Helper/Tests.antt =====
-- A run of the helper: a request for two packages, of which one is upgradable, on a Sunday night
-- inside a window, on a machine that asks for a reboot. The world is a clock's tick.
use abora_framework.Common.{
  ◌≢◌, ℕ, suc, ◌≡◌, ◌⊎◌, refl, true, List, [], ◌∷◌, ◌++◌, none, some, ok, err, All, Text, codes,
  text_eq, if◌then◌else◌,
}
use abora_framework.Config.Settings.{Config, default_config}
use abora_framework.Config.Schedule.{permissions, in_window}
use abora_framework.Config.Clock.{parse_clock}
use abora_framework.Update.{sunday, MaintenanceWindow}
use abora_framework.Update.Host.{valid_package_name, parse_simulation}
use abora_framework.Update.Apply.{
  ApplyRequest, FileNode, valid_request_id, validate_request, install_args, read_regular_file,
}
use abora_framework.Helper.{command, Ctx, State, apt_get, simulate_args}
use abora_framework.Helper.Process.{process}
use abora_framework.Helper.Process.Commands.{IsAllowed, process-IsAllowed}
use abora_framework.Helper.Process.Outcomes.{IsAnswer, process_answers}
use abora_framework.Helper.Run.{run, systemctl, reboot_args}
use abora_framework.Helper.Run.Reboots.{MayRebootAfter, ending, can_write, run-events, run_reboots}

abbrev night : MaintenanceWindow
night = record {
  days = sunday ∷ [];
  start = codes "02:00";
  end = codes "04:00";
  max_duration_minutes = none;
}

abbrev config : Config
config = record default_config { maintenance = record { enabled = true; windows = night ∷ [] } }

abbrev request : ApplyRequest
request = record {
  id = codes "req-0001";
  requested_at = codes "2026-01-04T02:29:00Z";
  requested_by = codes "admin";
  packages = codes "curl" ∷ codes "gone" ∷ [];
}

abbrev request_file : FileNode
request_file = record { is_file = true; size = 120; age = some 60000000000; content = ok (1 ∷ []) }

abbrev answer : List Text → Text
answer [] = []
answer (a ∷ args) = if text_eq a (codes "-s") then codes "Inst curl [8.5] (8.6 U [amd64])" else []

abbrev ctx : Ctx ℕ
ctx = record {
  request_path = codes "/run/abora/apply-request.json";
  config = config;
  request_node = λ w. ok request_file;
  runner = λ program args w. (ok (answer args), suc w);
  now = λ w. (codes "now", w);
  local_time = λ w. (some (record { weekday = sunday; minutes = 150 }), w);
  reboot_marker_exists = λ w. true;
  from_slice = λ bytes. some request;
  write_atomic = λ result w. (ok tt, suc w);
  remove_file = suc;
}

abbrev start : State ℕ
start = record { world = 0; events = [] }

processed_commands :
    (process ctx start).1.events
    ≡ command apt_get simulate_args ∷ command apt_get (install_args (codes "curl" ∷ [])) ∷ []
unfolding process validate_request valid_request_id valid_package_name read_regular_file permissions
    in_window parse_clock parse_simulation
processed_commands = refl

process-IsAllowed_example : All (IsAllowed ctx (ctx.now 0).1) (process ctx start).1.events
process-IsAllowed_example = process-IsAllowed ctx start refl

process_answers_example :
    ((e : Text) × (ctx.request_node 0 ≡ err e) × (process ctx start ≡ (none, start)))
    ⊎ ((node : FileNode) × (ctx.request_node 0 ≡ ok node)
        × IsAnswer ctx (ctx.now 0).1 (process ctx start).0)
process_answers_example = process_answers ctx start

run-events_example :
    (run ctx start).1.events
    ≡ (process ctx start).1.events
      ++ ending (process ctx start).0 (can_write ctx (process ctx start))
run-events_example = run-events ctx start

run_reboots_example :
    All
      (λ e. (e ≢ command systemctl reboot_args) ⊎ MayRebootAfter ctx (ctx.now 0).1)
      (run ctx start).1.events
run_reboots_example = run_reboots ctx start refl
