-- ===== src/Aborad/Scheduler/Tests.antt =====
-- The first turn of a daemon that applies updates automatically, on a Sunday night inside a window:
-- apt-get lists one update, and the turn requests it.
use abora_framework.Common.{
  ℕ, ◌≤◌, ◌≡◌, length, refl, arith, true, false, List, [], ◌∷◌, Option, none, some, Result, ok, err,
  Text, codes,
}
use abora_framework.Config.Settings.{Config, default_config, default_updates}
use abora_framework.Config.Schedule.{permissions, in_window, check_interval, should_auto_apply}
use abora_framework.Config.Clock.{parse_clock}
use abora_framework.Update.{sunday, MaintenanceWindow}
use abora_framework.Update.Apply.{
  max_packages, ApplyRequest, ApplyResult, valid_request_id, validate_request, read_regular_file,
}
use abora_framework.Update.Host.{parse_simulation}
use abora_framework.Update.Host.Provider.{available_of, check}
use abora_framework.Update.Store.{StoreData, StoreError, in_memory, change, record_check}
use abora_framework.Aborad.State.{
  requested_packages, insert, sort, dedup, request_apply, ingest_apply_result,
}
use abora_framework.Aborad.Updates.{first_updates, refresh, set_schedule}
use abora_framework.Aborad.Scheduler.{Turn, first_schedule, caller, turn}
use abora_framework.Aborad.Scheduler.Turns.{IsAutomatic, turn-IsAutomatic}
use abora_framework.Aborad.Scheduler.Runs.{first, turn-IsValid}

abbrev night : MaintenanceWindow
night = record {
  days = sunday ∷ [];
  start = codes "02:00";
  end = codes "04:00";
  max_duration_minutes = none;
}

abbrev config : Config
config = record default_config {
  updates = record default_updates { automatic = true };
  maintenance = record { enabled = true; windows = night ∷ [] };
}

abbrev save : Text → StoreData → Result (Unit {0}) StoreError
save path d = ok tt

abbrev from_slice : List ℕ → Option ApplyResult
from_slice bytes = none

abbrev write : ApplyRequest → Result (Unit {0}) Text
write request = ok tt

abbrev input : Turn
input = record {
  config = config;
  local_time = some (record { weekday = sunday; minutes = 180 });
  result_node = err (codes "no such file");
  due_at = 5;
  attempt_at = 6;
  output = ok (codes "Inst curl [8.5] (8.6 U [amd64])");
  checked_at = codes "2026-01-04T03:00:00Z";
  pending = false;
  auto_at = 7;
  auto_attempt_at = 8;
  pending_again = false;
  apply_time = some (record { weekday = sunday; minutes = 181 });
  id = codes "apply-0123456789abcdef";
  now = codes "2026-01-04T03:01:00Z";
}

abbrev request : ApplyRequest
request = record {
  id = codes "apply-0123456789abcdef";
  requested_at = codes "2026-01-04T03:01:00Z";
  requested_by = caller;
  packages = codes "curl" ∷ [];
}

request_written :
    (turn save from_slice write input first_schedule (first_updates in_memory)).2 ≡ some request
unfolding turn available_of permissions in_window parse_clock check_interval should_auto_apply
    set_schedule ingest_apply_result read_regular_file refresh check parse_simulation record_check
    change request_apply requested_packages dedup sort insert
request_written = refl

turn-IsAutomatic_example :
    IsAutomatic save from_slice write input first_schedule
      (turn save from_slice write input first_schedule (first_updates in_memory)).0
      (turn save from_slice write input first_schedule (first_updates in_memory)).1
      request
turn-IsAutomatic_example =
    turn-IsAutomatic save from_slice write input first_schedule (first_updates in_memory) request
      request_written

few_listed :
    length
      (turn save from_slice write input first_schedule (first_updates in_memory)).1.state.available
    ≤ max_packages
unfolding turn available_of permissions in_window parse_clock check_interval should_auto_apply
    set_schedule ingest_apply_result read_regular_file refresh check parse_simulation record_check
    change request_apply requested_packages dedup sort insert
few_listed = omega arith

id_valid : valid_request_id input.id ≡ true
unfolding valid_request_id
id_valid = refl

turn-IsValid_example : validate_request request ≡ ok tt
turn-IsValid_example =
    turn-IsValid save from_slice write input first_schedule (first_updates in_memory) request
      (first in_memory) id_valid few_listed request_written
