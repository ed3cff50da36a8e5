-- ===== src/Services/Systemd/Details.antt =====
-- crates/abora-services/src/linux.rs: one unit in detail (`systemctl show`), with the check of its
-- name in crates/abora-services/src/lib.rs.
pub mod Names
pub mod Missing
use abora_framework.Common.{
  ℕ, ◌==◌, Bool, true, false, not, ◌&&◌, ◌||◌, List, [], ◌∷◌, ◌++◌, map, Option, none, some,
  and_then, Result, ok, err, ◌>>=◌, Text, codes, text_eq, contains_text, cut_at, split_once, join,
  lines, trim, len, is_empty, drop, length, if◌then◌else◌,
}
use abora_framework.Common.Decimal.{u64_limit, parse_uint}
use abora_framework.Services.{ServicesError, systemd, not_found, validate_unit_name}
use abora_framework.Services.Systemd.{
  Systemctl, run_systemctl_raw, exit_error, file_state_enabled, get,
}

pub record ServiceDetail : Type 0 where
  pub name : Text
  pub load_state : Text
  pub active_state : Text
  pub sub_state : Text
  pub enabled : Option Bool
  pub description : Option Text
  pub fragment_path : Option Text
  pub exec_start : Option Text
  pub main_pid : Option ℕ
  pub memory_bytes : Option ℕ

abbrev properties : List Text
properties =
    codes "LoadState"
    ∷ codes "ActiveState"
    ∷ codes "SubState"
    ∷ codes "UnitFileState"
    ∷ codes "Description"
    ∷ codes "FragmentPath"
    ∷ codes "ExecStart"
    ∷ codes "MainPID"
    ∷ codes "MemoryCurrent"
    ∷ []

unfoldable pub show_args : Text → List Text
show_args name = codes "show" ∷ name ∷ map (λ p. codes "--property=" ++ p) properties

abbrev unless_blank : Text → Option Text
unless_blank s = if is_empty s then none else some s

-- where the command line ends: at ` ;`, else at `}`, else at the end
abbrev argv_end : Option (Text × Text) → Option (Text × Text) → Text → Text
argv_end (some (a, b)) brace rest = a
argv_end none (some (a, b)) rest = a
argv_end none none rest = rest

abbrev argv_of : Option (Text × Text) → Option Text
argv_of none = none
argv_of (some (before, found)) =
    let rest = drop (length (codes "argv[]=")) found in
    unless_blank (trim (argv_end (cut_at (codes " ;") rest) (cut_at (codes "}") rest) rest))

pub extract_argv : Text → Option Text
extract_argv value = argv_of (cut_at (codes "argv[]=") value)

-- `entry(key).or_insert(value)`
abbrev pub or_insert : Text → Text → Option Text → List (Text × Text) → List (Text × Text)
or_insert key value (some old) props = props
or_insert key value none props = props ++ (key, value) ∷ []

abbrev pub show_line : Option (Text × Text) → List (Text × Text) → List (Text × Text)
show_line none props = props
show_line (some (key, value)) props = or_insert key value (get key props) props

abbrev pub show_lines : List Text → List (Text × Text) → List (Text × Text)
show_lines [] props = props
show_lines (line ∷ ls) props = show_lines ls (show_line (split_once b'=' line) props)

unfoldable pub parse_show : Text → List (Text × Text)
parse_show text = show_lines (lines text) []

-- `unwrap_or_default`
abbrev or_empty : Option Text → Text
or_empty none = []
or_empty (some s) = s

abbrev is_set : Text → Option Text
is_set v = if not (is_empty v) && not (text_eq v (codes "[not set]")) then some v else none

abbrev nonzero : ℕ → Option ℕ
nonzero n = if n == 0 then none else some n

pub detail_of : Text → List (Text × Text) → ServiceDetail
detail_of name props = record {
  name = name;
  load_state = or_empty (get (codes "LoadState") props);
  active_state = or_empty (get (codes "ActiveState") props);
  sub_state = or_empty (get (codes "SubState") props);
  enabled = and_then (get (codes "UnitFileState") props) file_state_enabled;
  description = and_then (get (codes "Description") props) is_set;
  fragment_path = and_then (get (codes "FragmentPath") props) is_set;
  exec_start = and_then (get (codes "ExecStart") props) extract_argv;
  main_pid =
      and_then (and_then (get (codes "MainPID") props) (λ v. parse_uint u64_limit (trim v)))
        nonzero;
  memory_bytes = and_then (get (codes "MemoryCurrent") props) (λ v. parse_uint u64_limit (trim v));
}

abbrev pub says_missing : Text → Bool
says_missing stderr =
    contains_text stderr (codes "No such unit") || contains_text stderr (codes "not-found")

pub shown : Text → Bool × Text × Text → Result ServiceDetail ServicesError
unfolding detail_of
shown name (false, output, stderr) =
    if says_missing stderr then err (not_found name) else err (exit_error (show_args name) stderr)
shown name (true, output, stderr) =
    let props = parse_show output in
    if text_eq (or_empty (get (codes "LoadState") props)) (codes "not-found")
    then err (not_found name)
    else ok (detail_of name props)

-- `SystemdServiceManager::detail`
pub unit_detail : Systemctl → Text → Result ServiceDetail ServicesError
unfolding shown
unit_detail systemctl name = run_systemctl_raw systemctl (show_args name) >>= shown name

-- `detail` of lib.rs
unfoldable pub detail : Systemctl → Text → Result ServiceDetail ServicesError
unfolding unit_detail
detail systemctl name =
    if not (validate_unit_name (trim name))
    then err (systemd (codes "`" ++ (trim name ++ codes "` is not a valid unit name")))
    else unit_detail systemctl (trim name)
