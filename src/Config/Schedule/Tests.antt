-- ===== src/Config/Schedule/Tests.antt =====
-- The source's unit tests of the schedule.
use abora_framework.Common.{◌≡◌, ◌↔◌, ◌⊎◌, refl, true, false, none, some, [], ◌∷◌, codes}
use abora_framework.Update.{sunday, MaintenanceWindow}
use abora_framework.Update.{always, ask}
use abora_framework.Config.Clock.{parse_clock}
use abora_framework.Config.Settings.{Config, default_config}
use abora_framework.Config.Schedule.{permissions, from_secs}
use abora_framework.Config.Schedule.Policy.{IsOpen, permissions_iff}
use abora_framework.Config.Schedule.{parse_date_output, in_window, LocalTime, check_is_due}

abbrev night : MaintenanceWindow
night = record {
  days = sunday ∷ [];
  start = codes "02:00";
  end = codes "04:00";
  max_duration_minutes = none;
}

date_is_parsed :
    parse_date_output (codes "7 03:15\n") ≡ some (record { weekday = sunday; minutes = 195 })
unfolding parse_date_output
date_is_parsed = refl

bad_hour : parse_date_output (codes "3 25:00") ≡ none
unfolding parse_date_output
bad_hour = refl

start_is_inclusive : in_window (night ∷ []) (record { weekday = sunday; minutes = 120 }) ≡ true
unfolding in_window parse_clock
start_is_inclusive = refl

end_is_exclusive : in_window (night ∷ []) (record { weekday = sunday; minutes = 240 }) ≡ false
unfolding in_window parse_clock
end_is_exclusive = refl

abbrev half_past_two : LocalTime
half_past_two = record { weekday = sunday; minutes = 150 }

abbrev config : Config
config = record default_config { maintenance = record { enabled = true; windows = night ∷ [] } }

permissions_iff_example :
    (((permissions config (some half_past_two)).apply_permitted ≡ true)
      ↔ IsOpen config (some half_past_two))
    × (((permissions config (some half_past_two)).installs_permitted ≡ true)
        ↔ ((config.updates.automatic ≡ true) × IsOpen config (some half_past_two)))
    × (((permissions config (some half_past_two)).reboot_permitted ≡ true) ↔ (
        (config.updates.reboot_policy ≡ always)
        ⊎ ((config.updates.reboot_policy ≡ ask) × IsOpen config (some half_past_two))))
permissions_iff_example = permissions_iff config (some half_past_two)

due_after_a_quarter : check_is_due (from_secs 900) false (from_secs 21600) ≡ true
unfolding check_is_due
due_after_a_quarter = refl
