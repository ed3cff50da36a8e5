-- ===== src/Config/Tests.antt =====
-- Clocks, durations and configurations as the source's unit tests write them.
use abora_framework.Common.{
  ◌%◌, ◌≢◌, ◌↔◌, ℕ, ◌≡◌, ◌↔◌, ◌^◌, ◌<◌, ◌++◌, refl, arith, true, [], ◌∷◌, some, ok, Text, codes,
  inl, Bool,
}
use abora_framework.Common.Decimal.{show}
use abora_framework.Update.{sunday, MaintenanceWindow}
use abora_framework.Config.Clock.{parse_clock}
use abora_framework.Config.Duration.{unit_seconds, parse_duration}
use abora_framework.Config.Duration.Values.{parse_duration_zero}
use abora_framework.Config.Settings.{Config, default_config}
use abora_framework.Config.Validate.{validate}
use abora_framework.Config.Validate.Complete.{IsSound, validate_iff}
use abora_framework.Config.Schedule.{permissions}
use abora_framework.Config.Schedule.Policy.{validated_window_opens}

abbrev night : MaintenanceWindow
night = record {
  days = sunday ∷ [];
  start = codes "02:00";
  end = codes "04:00";
  max_duration_minutes = some 60;
}

abbrev config : Config
config = record default_config { maintenance = record { enabled = true; windows = night ∷ [] } }

abbrev any_addr : Text → Bool
any_addr addr = true

six_hours : unit_seconds (codes "h") ≡ some 3600
unfolding unit_seconds
six_hours = refl

parse_duration_zero_example :
    ((parse_duration (show (2 ^ 57) ++ codes "d") ≡ ok 0) ↔ (2 ^ 57 % 2 ^ 57 ≡ 0))
    × ((parse_duration (show (2 ^ 57) ++ codes "h") ≡ ok 0) ↔ (2 ^ 57 % 2 ^ 60 ≡ 0))
    × ((parse_duration (show (2 ^ 57) ++ codes "m") ≡ ok 0) ↔ (2 ^ 57 % 2 ^ 62 ≡ 0))
    × (parse_duration (show (2 ^ 57) ++ codes "s") ≢ ok 0)
parse_duration_zero_example = parse_duration_zero (2 ^ 57) (omega arith) (omega arith)

validate_iff_example : (validate any_addr config ≡ ok tt) ↔ IsSound any_addr config
validate_iff_example = validate_iff any_addr config

config_accepted : validate any_addr config ≡ ok tt
unfolding validate parse_clock parse_duration
config_accepted = refl

validated_window_opens_example :
    (m : ℕ) × (m < 1440)
    × ((permissions config (some (record { weekday = sunday; minutes = m }))).apply_permitted
        ≡ true)
validated_window_opens_example =
    validated_window_opens any_addr config night sunday config_accepted refl (inl refl) (inl refl)
