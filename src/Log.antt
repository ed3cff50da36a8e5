-- ===== src/Log.antt =====
-- crates/abora-log/src/lib.rs: severities, the threshold that decides what is emitted, and timestamps.
pub mod Time
mod Tests
use abora_framework.Common.{
  ℕ, zero, suc, ◌≡◌, ◌≢◌, ◌≤◌, ◌↔◌, refl, Bool, true, not, ◌&&◌, arith, leb, ◌==◌, Text, codes,
  text_eq, Option, none, some, if◌then◌else◌,
}

pub data Level : Type 0 where
  off error warn info debug trace : Level

pub data Format : Type 0 where
  json text : Format

-- `self as u8`: the declaration order
unfoldable pub as_rank : Level → ℕ
as_rank off = 0
as_rank error = 1
as_rank warn = 2
as_rank info = 3
as_rank debug = 4
as_rank trace = 5

unfoldable pub from_rank : ℕ → Level
from_rank zero = off
from_rank (suc zero) = error
from_rank (suc (suc zero)) = warn
from_rank (suc (suc (suc zero))) = info
from_rank (suc (suc (suc (suc zero)))) = debug
from_rank (suc (suc (suc (suc (suc n))))) = trace

unfoldable pub show_level : Level → Text
show_level off = codes "off"
show_level error = codes "error"
show_level warn = codes "warn"
show_level info = codes "info"
show_level debug = codes "debug"
show_level trace = codes "trace"

-- `FromStr`, where `none` is the error
unfoldable pub parse_level : Text → Option Level
parse_level s =
    if text_eq s (codes "off")
    then some off
    else if text_eq s (codes "error")
    then some error
    else if text_eq s (codes "warn")
    then some warn
    else if text_eq s (codes "info")
    then some info
    else if text_eq s (codes "debug")
    then some debug
    else if text_eq s (codes "trace")
    then some trace
    else none

-- The logger's state is the atomic rank of its threshold, and its fixed format.
pub record Logger : Type 0 where
  pub level_rank : ℕ
  pub format : Format

unfoldable pub level : Logger → Level
unfolding from_rank
level l = from_rank l.level_rank

unfoldable pub set_level : Logger → Level → Logger
unfolding as_rank
set_level l v = record l { level_rank = as_rank v }

unfoldable pub enabled : Logger → Level → Bool
unfolding as_rank
enabled l v =
    not (l.level_rank == as_rank off)
    && not (as_rank v == as_rank off)
    && leb (as_rank v) l.level_rank

-- A logger reports the threshold that was set last, and keeps its format.
pub level-set_level :
    (l : Logger) (v : Level) → (level (set_level l v) ≡ v) × ((set_level l v).format ≡ l.format)
unfolding level set_level
level-set_level l off = (refl, refl)
level-set_level l error = (refl, refl)
level-set_level l warn = (refl, refl)
level-set_level l info = (refl, refl)
level-set_level l debug = (refl, refl)
level-set_level l trace = (refl, refl)

-- After a threshold is set, a record is emitted exactly when its level is not `off` and is at or
-- below the threshold in the order of declaration.
pub enabled-set_level_iff :
    (l : Logger) (threshold v : Level)
    → (enabled (set_level l threshold) v ≡ true) ↔ ((v ≢ off) × (as_rank v ≤ as_rank threshold))
unfolding enabled set_level
enabled-set_level_iff l threshold v =
    (λ h. (λ e. ground arith, ground arith), λ (n, h). ground arith)

-- The printed name of a level parses back to it.
pub parse_level-show_level : (v : Level) → parse_level (show_level v) ≡ some v
unfolding parse_level show_level
parse_level-show_level off = refl
parse_level-show_level error = refl
parse_level-show_level warn = refl
parse_level-show_level info = refl
parse_level-show_level debug = refl
parse_level-show_level trace = refl
