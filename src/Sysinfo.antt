-- ===== src/Sysinfo.antt =====
-- crates/abora-sysinfo: what /proc/meminfo and /etc/os-release are read into (linux.rs), and the
-- names of architectures (lib.rs). A BTreeMap is a list of its entries, the latest first.
pub mod Memory
pub mod Quotes
mod Tests
use abora_framework.Common.{
  ℕ, suc, ◌+◌, ◌-◌, ◌*◌, ◌%◌, ◌==◌, ltb, leb, Bool, true, false, not, ◌&&◌, ◌||◌, List, [], ◌∷◌,
  ◌++◌, Option, none, some, and_then, Result, ok, err, ok_or, Text, codes, text_eq, starts_with,
  ends_with, split_once, split_whitespace, lines, trim, len, is_empty, ascii_lowercase,
  if◌then◌else◌,
}
use abora_framework.Common.Decimal.{u64_limit, parse_uint}

pub record MemoryInfo : Type 0 where
  pub total_bytes : ℕ
  pub available_bytes : ℕ
  pub free_bytes : ℕ
  pub used_bytes : ℕ
  pub swap_total_bytes : ℕ
  pub swap_used_bytes : ℕ

-- `saturating_sub` is 0 where it would be negative
unfoldable pub from_fields : ℕ → ℕ → ℕ → ℕ → ℕ → MemoryInfo
from_fields total available free swap_total swap_free = record {
  total_bytes = total;
  available_bytes = available;
  free_bytes = free;
  used_bytes = total - available;
  swap_total_bytes = swap_total;
  swap_used_bytes = swap_total - swap_free;
}

abbrev first_word : List Text → Option Text
first_word [] = none
first_word (w ∷ ws) = some w

abbrev pub field_of : Option (Text × Text) → Option (Text × ℕ)
field_of none = none
field_of (some (key, rest)) =
    and_then (and_then (first_word (split_whitespace rest)) (parse_uint u64_limit))
      λ value. some (trim key, value)

abbrev pub add_field : Option (Text × ℕ) → List (Text × ℕ) → List (Text × ℕ)
add_field none fields = fields
add_field (some entry) fields = entry ∷ fields

-- the loop over the lines
pub meminfo_fields : List Text → List (Text × ℕ) → List (Text × ℕ)
meminfo_fields [] fields = fields
meminfo_fields (line ∷ ls) fields =
    meminfo_fields ls (add_field (field_of (split_once b':' line)) fields)

abbrev pub get_field : Text → List (Text × ℕ) → Option ℕ
get_field key [] = none
get_field key ((k, v) ∷ fields) = if text_eq k key then some v else get_field key fields

abbrev pub unwrap_or {ℓ} : {A : Type ℓ} → Option A → A → A
unwrap_or none a = a
unwrap_or (some b) a = b

abbrev pub kib : ℕ
kib = 1024

-- a product of 64 bits wraps around
abbrev pub times_kib : ℕ → ℕ
times_kib n = (n * kib) % u64_limit

pub memory_of : List (Text × ℕ) → ℕ → MemoryInfo
unfolding from_fields
memory_of fields total =
    let free = unwrap_or (get_field (codes "MemFree") fields) 0 in
    from_fields (times_kib total)
      (times_kib (unwrap_or (get_field (codes "MemAvailable") fields) free)) (times_kib free)
      (times_kib (unwrap_or (get_field (codes "SwapTotal") fields) 0))
      (times_kib (unwrap_or (get_field (codes "SwapFree") fields) 0))

abbrev memory_or_error : List (Text × ℕ) → Option ℕ → Result MemoryInfo Text
memory_or_error fields none = err (codes "MemTotal is missing")
memory_or_error fields (some total) = ok (memory_of fields total)

unfoldable pub parse_meminfo : Text → Result MemoryInfo Text
unfolding meminfo_fields
parse_meminfo text =
    let fields = meminfo_fields (lines text) [] in
    memory_or_error fields (get_field (codes "MemTotal") fields)

-- the loop over the characters between the quotes
pub unescape : Text → Text
unescape [] = []
unescape (c ∷ []) = c ∷ []
unescape (c ∷ d ∷ s) = elim (c == b'\\') [ true ↦ d ∷ unescape s | false ↦ c ∷ unescape (d ∷ s) ]

-- without the last character
abbrev pub but_last : Text → Text
but_last [] = []
but_last (c ∷ []) = []
but_last (c ∷ d ∷ s) = c ∷ but_last (d ∷ s)

-- `&value[1..value.len() - 1]`, where the ends are ASCII
abbrev pub inside : Text → Text
inside [] = []
inside (c ∷ s) = but_last s

unfoldable pub unquote : Text → Text
unquote value =
    if leb 2 (len value) && starts_with value (codes "\"") && ends_with value (codes "\"")
    then unescape (inside value)
    else if leb 2 (len value) && starts_with value (codes "'") && ends_with value (codes "'")
    then inside value
    else value

pub record OsInfo : Type 0 where
  pub id : Text
  pub name : Option Text
  pub pretty_name : Option Text
  pub version : Option Text
  pub version_id : Option Text
  pub id_like : List Text
  pub home_url : Option Text

abbrev add_assignment : Option (Text × Text) → List (Text × Text) → List (Text × Text)
add_assignment none entries = entries
add_assignment (some (key, value)) entries = (trim key, unquote (trim value)) ∷ entries

os_entries : List Text → List (Text × Text) → List (Text × Text)
os_entries [] entries = entries
os_entries (line ∷ ls) entries =
    let l = trim line in
    os_entries ls (
      if is_empty l || starts_with l (codes "#")
      then entries
      else add_assignment (split_once b'=' l) entries)

abbrev get_entry : Text → List (Text × Text) → Option Text
get_entry key [] = none
get_entry key ((k, v) ∷ entries) = if text_eq k key then some v else get_entry key entries

abbrev words_or_none : Option Text → List Text
words_or_none none = []
words_or_none (some v) = split_whitespace v

unfoldable pub parse_os_release : Text → OsInfo
unfolding os_entries
parse_os_release text =
    let entries = os_entries (lines text) [] in
    record {
      id = unwrap_or (get_entry (codes "ID") entries) (codes "unknown");
      name = get_entry (codes "NAME") entries;
      pretty_name = get_entry (codes "PRETTY_NAME") entries;
      version = get_entry (codes "VERSION") entries;
      version_id = get_entry (codes "VERSION_ID") entries;
      id_like = words_or_none (get_entry (codes "ID_LIKE") entries);
      home_url = get_entry (codes "HOME_URL") entries;
    }

pub data Architecture : Type 0 where
  x86_64 x86 aarch64 arm riscv64 riscv32 powerpc64 s390x : Architecture
  other : Text → Architecture

unfoldable pub from_machine : Text → Architecture
from_machine machine =
    let m = ascii_lowercase (trim machine) in
    let is = text_eq m in
    if is (codes "x86_64") || is (codes "amd64")
    then x86_64
    else if is (codes "i386")
        || is (codes "i486")
        || is (codes "i586")
        || is (codes "i686")
        || is (codes "x86")
    then x86
    else if is (codes "aarch64") || is (codes "arm64")
    then aarch64
    else if is (codes "riscv64")
    then riscv64
    else if is (codes "riscv32")
    then riscv32
    else if is (codes "ppc64") || is (codes "ppc64le") || is (codes "powerpc64")
    then powerpc64
    else if is (codes "s390x")
    then s390x
    else if starts_with m (codes "arm")
    then arm
    else other m

unfoldable pub canonical : Architecture → Text
canonical x86_64 = codes "x86_64"
canonical x86 = codes "i686"
canonical aarch64 = codes "aarch64"
canonical arm = codes "arm"
canonical riscv64 = codes "riscv64"
canonical riscv32 = codes "riscv32"
canonical powerpc64 = codes "ppc64"
canonical s390x = codes "s390x"
canonical (other s) = s
