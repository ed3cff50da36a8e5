-- ===== src/Update/Host.antt =====
-- The package names and the parsing of `apt-get -s` output in crates/abora-update/src/host.rs.
pub mod Simulation
pub mod RoundTrip
pub mod Provider
mod Tests
use abora_framework.Common.{
  ℕ, Bool, true, false, not, ◌&&◌, ◌||◌, List, [], ◌∷◌, Option, none, some, and_then, Text, codes,
  len, is_empty, all, any, is_ascii_digit, is_ascii_lowercase, starts_with, strip_prefix,
  split_once, split_by, split, trim_start, lines, leb, ◌==◌, if◌then◌else◌,
}
use mathlib.Core.List.{filter_map}
use abora_framework.Common.Decimal.{parse_uint, u64_limit}
use abora_framework.Core.Version
use abora_framework.Core.Version.{Version}

pub record PackageUpgrade : Type 0 where
  pub name : Text
  pub from : Option Text
  pub to : Text
  pub source : Text

-- `c.is_ascii_lowercase() || c.is_ascii_digit() || "+-.:".contains(c)`
abbrev pub is_name_char : ℕ → Bool
is_name_char c =
    is_ascii_lowercase c || is_ascii_digit c || c == b'+' || c == b'-' || c == b'.' || c == b':'

unfoldable pub valid_package_name : Text → Bool
valid_package_name name =
    not (is_empty name)
    && (leb (len name) 200
        && (not (starts_with name (codes "-") || starts_with name (codes "."))
            && all is_name_char name))

-- after the name: the installed version in brackets, if any
parse_from : Text → Option (Option Text × Text)
parse_from rest = elim (strip_prefix (codes "[") rest) [
  | none ↦ some (none, rest)
  | some after ↦ and_then (split_once b']' after) λ (from, tail). some (some from, trim_start tail)
]

-- `split_once(…).map_or(inner, |(inside, _)| inside)`
abbrev before_or_all : ℕ → Text → Text
before_or_all d s = elim (split_once d s) [ none ↦ s | some (inside, _) ↦ inside ]

-- `split_once(' ').unwrap_or((inner, ""))`
abbrev cut_or_all : ℕ → Text → Text × Text
cut_or_all d s = elim (split_once d s) [ none ↦ (s, []) | some p ↦ p ]

-- in the parentheses: the new version and its source
parse_target : Text → Option Text → Text → Option PackageUpgrade
parse_target name from rest = and_then (strip_prefix (codes "(") rest) λ inner.
    let (to, source) = cut_or_all b' ' (before_or_all b')' inner) in
    if is_empty to
    then none
    else some (record { name = name; from = from; to = to; source = source })

parse_inst_line : Text → Option PackageUpgrade
unfolding parse_from parse_target
parse_inst_line line = and_then (strip_prefix (codes "Inst ") line) λ rest.
    and_then (split_once b' ' rest) λ (name, rest).
      if not (valid_package_name name)
      then none
      else and_then (parse_from rest) λ (from, rest). parse_target name from rest

unfoldable pub parse_simulation : Text → List PackageUpgrade
unfolding parse_inst_line valid_package_name filter_map
parse_simulation output = filter_map parse_inst_line (lines output)

-- `parts.next().and_then(|p| p.parse().ok()).unwrap_or(0)`, with the parts that are left
next_number : List Text → ℕ × List Text
next_number [] = (0, [])
next_number (p ∷ ps) = (elim (parse_uint u64_limit p) [ none ↦ 0 | some n ↦ n ], ps)

first_or_empty : List Text → Text
first_or_empty [] = []
first_or_empty (p ∷ ps) = p

unfoldable pub version_from_debian : Text → Version
unfolding next_number first_or_empty parse_uint
version_from_debian version =
    let no_epoch : Text = elim (split_once b':' version) [ none ↦ version | some (_, v) ↦ v ] in
    let numeric =
      first_or_empty (split_by (λ c. not (is_ascii_digit c) && not (c == b'.')) no_epoch) in
    let (major, rest) = next_number (split b'.' numeric) in
    let (minor, rest') = next_number rest in
    let (patch, _) = next_number rest' in Version.new major minor patch
