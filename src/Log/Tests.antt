-- ===== src/Log/Tests.antt =====
-- A logger reconfigured from `info` to `debug`, and some times.
use abora_framework.Common.{◌≡◌, refl, true, false, codes, ◌+◌}
use abora_framework.Log.{Logger, debug, trace, json, as_rank, set_level, enabled}
use abora_framework.Common.Decimal.{show}
use abora_framework.Log.Time.{IsDate, civil_from_days, utc_rfc3339_millis, civil_from_days-IsDate}

abbrev logger : Logger
logger = record { level_rank = 3; format = json }

debug_after : enabled (set_level logger debug) debug ≡ true
unfolding enabled set_level as_rank
debug_after = refl

debug_before : enabled logger debug ≡ false
unfolding enabled as_rank
debug_before = refl

no_trace : enabled (set_level logger debug) trace ≡ false
unfolding enabled set_level as_rank
no_trace = refl

at_first : utc_rfc3339_millis 0 ≡ codes "1970-01-01T00:00:00.000Z"
unfolding utc_rfc3339_millis civil_from_days show
at_first = refl

in_2023 : utc_rfc3339_millis 1700000000123000000 ≡ codes "2023-11-14T22:13:20.123Z"
unfolding utc_rfc3339_millis civil_from_days show
in_2023 = refl

leap_day : civil_from_days 19782 ≡ (2024, 2, 29)
unfolding civil_from_days
leap_day = refl

civil_from_days-IsDate_example :
    IsDate
      (19782 + 719528)
      (civil_from_days 19782).0
      (civil_from_days 19782).1
      (civil_from_days 19782).2
civil_from_days-IsDate_example = civil_from_days-IsDate 19782
