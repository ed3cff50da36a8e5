-- ===== src/Config/Duration.antt =====
-- `parse_duration` of crates/abora-config/src/lib.rs: `30m`, `6h` or `1d` as seconds. The product
-- is computed in 64 bits and wraps, as a release build does (the profile sets no overflow checks).
pub mod Values
use abora_framework.Common.{
  ℕ, ◌*◌, ◌%◌, Option, none, some, Result, ok, err, ok_or, ◌>>=◌, List, [], ◌∷◌, Text, codes,
  text_eq, trim, is_ascii_digit, ◌==◌, if◌then◌else◌,
}
use abora_framework.Common.Decimal.{parse_uint, u64_limit}

pub data DurationError : Type 0 where
  missing_unit invalid_number not_positive : DurationError
  unknown_unit : Text → DurationError

abbrev onto_digits : ℕ → Text × Text → Text × Text
onto_digits c (a, b) = (c ∷ a, b)

-- `find(|c| !c.is_ascii_digit())`, and the two slices that it cuts
split_digits : Text → Text × Text
split_digits [] = ([], [])
split_digits (c ∷ s) = if is_ascii_digit c then onto_digits c (split_digits s) else ([], c ∷ s)

unfoldable pub unit_seconds : Text → Option ℕ
unit_seconds unit =
    if text_eq unit (codes "s")
    then some 1
    else if text_eq unit (codes "m")
    then some 60
    else if text_eq unit (codes "h")
    then some 3600
    else if text_eq unit (codes "d")
    then some 86400
    else none

duration_of : Text → Text → Result ℕ DurationError
unfolding unit_seconds
duration_of number [] = err missing_unit
duration_of number (c ∷ unit) = ok_or (parse_uint u64_limit number) invalid_number >>= λ n.
    ok_or (unit_seconds (c ∷ unit)) (unknown_unit (c ∷ unit)) >>= λ mult.
    if n == 0 then err not_positive else ok ((n * mult) % u64_limit)

unfoldable pub parse_duration : Text → Result ℕ DurationError
unfolding duration_of split_digits parse_uint
parse_duration value = let (number, unit) = split_digits (trim value) in duration_of number unit
