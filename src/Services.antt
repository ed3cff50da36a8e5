-- ===== src/Services.antt =====
-- crates/abora-services/src/lib.rs: the filter and pager of the service list, and which unit names
-- reach systemctl; the service types of crates/abora-api/src/lib.rs. `usize` has 64 bits.
pub mod Pages
pub mod Systemd
mod Tests
use abora_framework.Common.{
  ℕ, zero, suc, ◌+◌, ◌%◌, ◌==◌, ltb, min, Bool, true, false, bool_eq, not, ◌&&◌, ◌||◌, List, [],
  ◌∷◌, Option, none, some, Text, codes, text_eq, starts_with, ends_with, contains_text,
  ascii_lowercase, is_empty, length, take, drop, any, filter, if◌then◌else◌,
}
use abora_framework.Common.Decimal.{u64_limit}

pub data ServiceState : Type 0 where
  running stopped failed activating deactivating unknown : ServiceState

pub record ServiceStatus : Type 0 where
  pub name : Text
  pub state : ServiceState
  pub enabled : Option Bool
  pub description : Option Text

pub data ServicesError : Type 0 where
  not_supported : ServicesError
  systemd not_found parse : Text → ServicesError

abbrev pub is_separator : ℕ → Bool
is_separator c = any (λ d. c == d) (b'/' ∷ b'\\' ∷ b' ' ∷ b'\t' ∷ b'\n' ∷ b'\r' ∷ [])

unfoldable pub validate_unit_name : Text → Bool
validate_unit_name name =
    not (is_empty name)
    && not (starts_with name (codes "-"))
    && not (any is_separator name)
    && ends_with name (codes ".service")

pub record ServiceQuery : Type 0 where
  pub state : Option ServiceState
  pub enabled : Option Bool
  pub text : Option Text
  pub limit : Option ℕ
  pub offset : ℕ

-- `Default`
abbrev pub default_query : ServiceQuery
default_query = record { state = none; enabled = none; text = none; limit = none; offset = 0 }

-- the derived `PartialEq`
abbrev pub state_eq : ServiceState → ServiceState → Bool
state_eq running running = true
state_eq stopped stopped = true
state_eq failed failed = true
state_eq activating activating = true
state_eq deactivating deactivating = true
state_eq unknown unknown = true
state_eq _ _ = false

abbrev matches_state : Option ServiceState → ServiceStatus → Bool
matches_state none s = true
matches_state (some state) s = state_eq s.state state

-- `service.enabled != Some(enabled)`
abbrev is_some_of : Bool → Option Bool → Bool
is_some_of b none = false
is_some_of b (some c) = bool_eq c b

abbrev matches_enabled : Option Bool → ServiceStatus → Bool
matches_enabled none s = true
matches_enabled (some b) s = is_some_of b s.enabled

abbrev description_hit : Text → Option Text → Bool
description_hit needle none = false
description_hit needle (some d) = contains_text (ascii_lowercase d) needle

abbrev matches_text : Option Text → ServiceStatus → Bool
matches_text none s = true
matches_text (some text) s =
    let needle = ascii_lowercase text in
    contains_text (ascii_lowercase s.name) needle || description_hit needle s.description

-- each early return is one conjunct
unfoldable pub matches : ServiceQuery → ServiceStatus → Bool
matches query s =
    matches_state query.state s && matches_enabled query.enabled s && matches_text query.text s

unfoldable pub total_matching : ServiceQuery → List ServiceStatus → ℕ
total_matching query services = length (filter (matches query) services)

-- where the page ends; the sum wraps around
page_end : Option ℕ → ℕ → ℕ → ℕ
page_end none start total = total
page_end (some zero) start total = total
page_end (some (suc n)) start total = min ((start + suc n) % u64_limit) total

-- `matched[start..end]`, which panics where the range is not one of the list
abbrev slice : {A : Type 0} → List A → ℕ → ℕ → Option (List A)
slice xs start end =
    if ltb end start || ltb (length xs) end then none else some (drop start (take end xs))

-- `None` for a panic
unfoldable pub apply : ServiceQuery → List ServiceStatus → Option (List ServiceStatus)
unfolding page_end
apply query services =
    let matched = filter (matches query) services in
    if is_empty matched
    then some []
    else let start = min query.offset (length matched) in
      slice matched start (page_end query.limit start (length matched))
