-- ===== src/Services/Systemd.antt =====
-- crates/abora-services/src/linux.rs: what systemctl prints, read into the service types. Running
-- systemctl is a parameter, which gives success, output and error output. A HashMap is a list of its
-- entries, of which `get` takes the first with the key.
pub mod Listing
pub mod Details
use abora_framework.Common.{
  ℕ, ltb, ◌==◌, Bool, true, false, not, ◌&&◌, ◌||◌, List, [], ◌∷◌, ◌++◌, map, Option, none, some,
  and_then, Result, ok, err, ◌>>=◌, Text, codes, text_eq, text_leb, starts_with, ends_with,
  contains_text, cut_at, split_once, split_whitespace, join, lines, trim, len, is_empty, length,
  drop, if◌then◌else◌,
}
use abora_framework.Common.Decimal.{u64_limit, parse_uint}
use abora_framework.Services.{
  ServiceState, running, stopped, failed, activating, deactivating, unknown, ServiceStatus,
  ServicesError, systemd, not_found, validate_unit_name,
}

abbrev pub map_active_state : Text → ServiceState
map_active_state active =
    if text_eq active (codes "active")
    then running
    else if text_eq active (codes "inactive")
    then stopped
    else if text_eq active (codes "failed")
    then failed
    else if text_eq active (codes "activating")
    then activating
    else if text_eq active (codes "deactivating")
    then deactivating
    else unknown

unfoldable pub file_state_enabled : Text → Option Bool
file_state_enabled state =
    if text_eq state (codes "enabled") || text_eq state (codes "enabled-runtime")
    then some true
    else if text_eq state (codes "disabled")
        || text_eq state (codes "masked")
        || text_eq state (codes "masked-runtime")
    then some false
    else none

pub record RawUnit : Type 0 where
  pub name : Text
  pub state : ServiceState
  pub description : Option Text

-- running `systemctl` with these arguments: success, output and error output, or why it did not run
abbrev pub Systemctl : Type 0
Systemctl = List Text → Result (Bool × Text × Text) Text

abbrev pub shared_flags : List Text
shared_flags =
    codes "--no-legend" ∷ codes "--no-pager" ∷ codes "--no-ask-password" ∷ codes "--plain" ∷ []

pub not_executed : Result (Bool × Text × Text) Text → Result (Bool × Text × Text) ServicesError
not_executed (ok output) = ok output
not_executed (err e) = err (systemd (codes "could not execute `systemctl`: " ++ e))

unfoldable pub run_systemctl_raw : Systemctl → List Text → Result (Bool × Text × Text) ServicesError
unfolding not_executed
run_systemctl_raw systemctl args = not_executed (systemctl (shared_flags ++ args))

abbrev pub exit_error : List Text → Text → ServicesError
exit_error args stderr = systemd (
    codes "`systemctl "
    ++ (join (codes " ") args ++ (codes "` exited with non-zero status: " ++ trim stderr)))

abbrev stdout_of : List Text → Bool × Text × Text → Result Text ServicesError
stdout_of args (true, stdout, stderr) = ok stdout
stdout_of args (false, stdout, stderr) = err (exit_error args stderr)

run_systemctl : Systemctl → List Text → Result Text ServicesError
run_systemctl systemctl args = run_systemctl_raw systemctl args >>= stdout_of args

-- `tokens.get(4..)`, where something is left
abbrev rest_of : List Text → Option Text
rest_of [] = none
rest_of (w ∷ ws) = some (join (codes " ") (w ∷ ws))

-- a row of at least four words
abbrev pub unit_of : List Text → Option RawUnit
unit_of (name ∷ load ∷ active ∷ sub ∷ rest) =
    if not (ends_with name (codes ".service")) || is_empty load || is_empty active
    then none
    else some (record { name = name; state = map_active_state active; description = rest_of rest })
unit_of _ = none

pub unit_line : Text → Option RawUnit
unit_line line =
    let row = trim line in
    if is_empty row || starts_with row (codes "UNIT ") then none else unit_of (split_whitespace row)

abbrev pub put_found {ℓ} : {B : Type ℓ} → Option B → List B → List B
put_found none ys = ys
put_found (some y) ys = y ∷ ys

-- the lines that are read, in order
abbrev pub filter_map {ℓ κ} : {A : Type ℓ} {B : Type κ} → (A → Option B) → List A → List B
filter_map f [] = []
filter_map f (x ∷ xs) = put_found (f x) (filter_map f xs)

unfoldable pub parse_list_units : Text → List RawUnit
unfolding unit_line
parse_list_units text = filter_map unit_line (lines text)

abbrev file_state : List Text → Option (Text × Option Bool)
file_state (name ∷ state ∷ rest) =
    if is_empty name || not (ends_with name (codes ".service")) || is_empty state
    then none
    else some (name, file_state_enabled state)
file_state _ = none

pub file_line : Text → Option (Text × Option Bool)
file_line line =
    let row = trim line in
    if is_empty row || starts_with row (codes "UNIT FILE")
    then none
    else file_state (split_whitespace row)

-- `insert` replaces: a later entry stands before an earlier one
abbrev pub inserted : {A : Type 0} → List A → List A → List A
inserted [] entries = entries
inserted (e ∷ es) entries = inserted es (e ∷ entries)

unfoldable pub parse_list_unit_files : Text → List (Text × Option Bool)
unfolding file_line
parse_list_unit_files text = inserted (filter_map file_line (lines text)) []

abbrev pub get {ℓ} : {A : Type ℓ} → Text → List (Text × A) → Option A
get key [] = none
get key ((k, a) ∷ entries) = if text_eq k key then some a else get key entries

-- `copied().flatten()`
abbrev pub flatten {ℓ} : {A : Type ℓ} → Option (Option A) → Option A
flatten none = none
flatten (some o) = o

pub status_of : List (Text × Option Bool) → RawUnit → ServiceStatus
status_of states u = record {
  name = u.name;
  state = u.state;
  enabled = flatten (get u.name states);
  description = u.description;
}

-- `sort_by` the name, which keeps equal names in their order
abbrev pub insert_by_name : ServiceStatus → List ServiceStatus → List ServiceStatus
insert_by_name s [] = s ∷ []
insert_by_name s (t ∷ ts) =
    let rest = insert_by_name s ts in if text_leb s.name t.name then s ∷ t ∷ ts else t ∷ rest

unfoldable pub sort_by_name : List ServiceStatus → List ServiceStatus
sort_by_name [] = []
sort_by_name (s ∷ ss) = insert_by_name s (sort_by_name ss)

abbrev pub list_units_args : List Text
list_units_args = codes "list-units" ∷ codes "--all" ∷ codes "--type=service" ∷ []

abbrev pub list_files_args : List Text
list_files_args = codes "list-unit-files" ∷ codes "--type=service" ∷ []

unfoldable pub listed : Text → Text → List ServiceStatus
unfolding status_of
listed units files =
    sort_by_name (map (status_of (parse_list_unit_files files)) (parse_list_units units))

unfoldable pub collect : Systemctl → Result (List ServiceStatus) ServicesError
unfolding run_systemctl
collect systemctl = do
  units ← run_systemctl systemctl list_units_args
  files ← run_systemctl systemctl list_files_args
  ok (listed units files)
