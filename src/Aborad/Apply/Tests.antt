-- ===== src/Aborad/Apply/Tests.antt =====
-- An operator applies the one update that was found, inside a maintenance window.
use abora_framework.Common.{true, false, [], ◌∷◌, Option, none, some, Result, ok, Text, codes}
use abora_framework.Core.Version
use abora_framework.Config.Settings.{Config, default_config, default_updates}
use abora_framework.Config.Schedule.{LocalTime}
use abora_framework.Update.{stable, AvailableUpdate, sunday, MaintenanceWindow}
use abora_framework.Update.Apply.{ApplyRequest}
use abora_framework.Update.Store.{in_memory}
use abora_framework.Aborad.State.{UpdatesState}
use abora_framework.Aborad.Apply.{apply_updates}
use abora_framework.Aborad.Apply.Answers.{Fits, apply_updates-Fits}

abbrev update : AvailableUpdate
update = record {
  channel = stable;
  version = Version.new 1 0 0;
  component = codes "curl";
  summary = [];
  release_notes = none;
  size_bytes = 0;
  released_at = none;
  checksums = none;
}

abbrev night : MaintenanceWindow
night = record {
  days = sunday ∷ [];
  start = codes "02:00";
  end = codes "04:00";
  max_duration_minutes = none;
}

abbrev config : Config
config = record default_config {
  updates = record default_updates { automatic = true };
  maintenance = record { enabled = true; windows = night ∷ [] };
}

abbrev at_night : Option LocalTime
at_night = some (record { weekday = sunday; minutes = 180 })

abbrev state : UpdatesState
state = record { store = in_memory; available = update ∷ [] }

abbrev write : ApplyRequest → Result (Unit {0}) Text
write request = ok tt

apply_updates-Fits_example : Fits (
    apply_updates write state config
      (some (codes "admin"))
      false
      at_night
      (codes "apply-1")
      (codes "now")
      ((codes "dry_run", codes "false") ∷ []))
apply_updates-Fits_example =
    apply_updates-Fits write state config (some (codes "admin")) false at_night (codes "apply-1")
      (codes "now") ((codes "dry_run", codes "false") ∷ [])
