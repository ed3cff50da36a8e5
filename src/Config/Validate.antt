-- ===== src/Config/Validate.antt =====
-- `Config::validate` and `validate_windows` of crates/abora-config/src/lib.rs. The messages are
-- values of `Problem`, with what they quote. Whether a text is a socket address is a parameter.
pub mod Windows
pub mod Complete
use abora_framework.Common.{
  ℕ, zero, suc, Bool, true, false, not, ◌||◌, Option, none, some, List, [], ◌∷◌, ◌++◌, Result, ok,
  err, Text, codes, text_eq, trim, len, starts_with, is_whitespace, is_empty, any, ◌==◌, ltb, leb,
  if◌then◌else◌,
}
use abora_framework.Update.{MaintenanceWindow}
use abora_framework.Config.Clock.{ClockError, parse_clock}
use abora_framework.Config.Duration.{DurationError, parse_duration}
use abora_framework.Config.Settings.{Config, UpdatesConfig, ApiConfig}

pub data Problem : Type 0 where
  hostname_empty : Problem
  hostname_whitespace : Text → Problem
  result_file_relative state_file_relative : Text → Problem
  bad_interval : Text → DurationError → Problem
  no_days : ℕ → Problem
  bad_start bad_end : ℕ → Text → ClockError → Problem
  ends_early : ℕ → Text → Text → Problem
  zero_max_duration : ℕ → Problem
  bad_listen_addr : Text → Problem
  base_path_trivial : Text → Problem
  base_path_padded : Problem
  zero_payload zero_timeout : Problem

-- `errors.push` under a test
abbrev pub push_if : Bool → Problem → List Problem
push_if true p = p ∷ []
push_if false p = []

abbrev pub is_zero_max : Option ℕ → Bool
is_zero_max none = false
is_zero_max (some n) = n == 0

-- One round of the loop of `validate_windows`; after a bad clock it goes to the next window.
window_problems : ℕ → MaintenanceWindow → List Problem
window_problems i w = push_if (is_empty w.days) (no_days i) ++ (elim (parse_clock w.start) [
  | err e ↦ bad_start i w.start e ∷ []
  | ok start ↦ elim (parse_clock w.end) [
    | err e ↦ bad_end i w.end e ∷ []
    | ok end ↦
        push_if (leb end start) (ends_early i w.end w.start)
        ++ push_if (is_zero_max w.max_duration_minutes) (zero_max_duration i)
  ]
])

pub validate_windows : ℕ → List MaintenanceWindow → List Problem
unfolding window_problems
validate_windows i [] = []
validate_windows i (w ∷ ws) = window_problems i w ++ validate_windows (suc i) ws

hostname_problems : Option Text → List Problem
hostname_problems none = []
hostname_problems (some hostname) =
    if is_empty (trim hostname)
    then hostname_empty ∷ []
    else push_if (any is_whitespace (trim hostname)) (hostname_whitespace hostname)

-- `Path::is_absolute` on Unix
abbrev pub is_absolute : Text → Bool
is_absolute path = starts_with path (codes "/")

interval_problems : Text → List Problem
interval_problems value = elim (parse_duration value) [
  | ok n ↦ []
  | err e ↦ bad_interval value e ∷ []
]

updates_problems : UpdatesConfig → List Problem
unfolding interval_problems
updates_problems u =
    push_if (not (is_absolute u.apply_result_file)) (result_file_relative u.apply_result_file)
    ++ (push_if (not (is_absolute u.state_file)) (state_file_relative u.state_file)
        ++ interval_problems u.check_interval)

base_path_problems : Text → List Problem
base_path_problems path =
    if not (starts_with (trim path) (codes "/")) || ltb (len (trim path)) 2
    then base_path_trivial path ∷ []
    else push_if (not (text_eq path (trim path))) base_path_padded

api_problems : ApiConfig → List Problem
unfolding base_path_problems
api_problems a =
    base_path_problems a.base_path
    ++ (push_if (a.max_payload_bytes == 0) zero_payload
        ++ push_if (a.request_timeout_secs == 0) zero_timeout)

-- every problem found, in the order of the checks
problems : (Text → Bool) → Config → List Problem
unfolding hostname_problems updates_problems validate_windows api_problems
problems is_socket_addr c =
    hostname_problems c.system.hostname
    ++ (updates_problems c.updates
        ++ (validate_windows 0 c.maintenance.windows
            ++ (push_if (not (is_socket_addr c.remote.listen_addr))
                  (bad_listen_addr c.remote.listen_addr)
                ++ api_problems c.api)))

abbrev unless_empty : List Problem → Result (Unit {0}) (List Problem)
unless_empty [] = ok tt
unless_empty (p ∷ ps) = err (p ∷ ps)

unfoldable pub validate : (Text → Bool) → Config → Result (Unit {0}) (List Problem)
unfolding problems
validate is_socket_addr c = unless_empty (problems is_socket_addr c)
