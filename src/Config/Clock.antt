-- ===== src/Config/Clock.antt =====
-- `parse_clock` of crates/abora-config/src/lib.rs: `HH:MM` as minutes since midnight.
pub mod Exact
use abora_framework.Common.{
  ℕ, ◌+◌, ◌*◌, ◌||◌, not, Option, none, some, Result, ok, err, ok_or, ◌>>=◌, Text, len,
  is_ascii_digit, all, split_once, ◌==◌, ltb, if◌then◌else◌,
}
use abora_framework.Common.Decimal.{parse_uint, u32_limit}

pub data ClockError : Type 0 where
  expected_hh_mm two_digits digits invalid_hour invalid_minute : ClockError
  hour_out_of_range minute_out_of_range : ClockError

clock_minutes : ℕ → ℕ → Result ℕ ClockError
clock_minutes hour minute =
    if ltb 23 hour
    then err hour_out_of_range
    else if ltb 59 minute
    then err minute_out_of_range
    else ok (hour * 60 + minute)

clock_parts : Text → Text → Result ℕ ClockError
unfolding clock_minutes
clock_parts hour minute =
    if not (len hour == 2) || not (len minute == 2)
    then err two_digits
    else if not (all is_ascii_digit hour) || not (all is_ascii_digit minute)
    then err digits
    else ok_or (parse_uint u32_limit hour) invalid_hour >>= λ h.
        ok_or (parse_uint u32_limit minute) invalid_minute >>= λ m. clock_minutes h m

unfoldable pub parse_clock : Text → Result ℕ ClockError
unfolding clock_parts parse_uint
parse_clock value = elim (split_once b':' value) [
  | none ↦ err expected_hh_mm
  | some (hour, minute) ↦ clock_parts hour minute
]
