-- ===== src/Helper.antt =====
-- services/abora-apply/src/main.rs: the root helper. `process` decides what to do with a waiting
-- request and `run` carries the outcome out. The outside is a world `W` that clocks, commands and
-- files read and change; every command and file write is also recorded, in order.
pub mod Process
pub mod Run
pub mod Start
mod Tests
use abora_framework.Common.{
  ℕ, Bool, true, false, not, ◌&&◌, List, [], ◌∷◌, ◌++◌, map, Option, none, some, Result, ok, err,
  Text, codes, text_eq, length, is_empty, any, filter, if◌then◌else◌,
}
use abora_framework.Common.Decimal.{show}
use abora_framework.Config.Settings.{Config}
use abora_framework.Config.Schedule.{LocalTime, Permissions, permissions}
use abora_framework.Update.Host.{PackageUpgrade, parse_simulation}
use abora_framework.Update.Apply.{
  ApplyRequest, ApplyResult, FileNode, ReadError, RequestError, max_request_age, valid_request_id,
  validate_request, install_args, read_regular_file, read_message, request_message,
}

pub data Event : Type 0 where
  command : Text → List Text → Event
  write_result : ApplyResult → Event
  remove_request : Event

-- Everything the helper depends on. `request_node` is what `symlink_metadata` and `read` see at the
-- request's path, and `from_slice` is the JSON parser.
pub record Ctx (W : Type 0) : Type 0 where
  pub request_path : Text
  pub config : Config
  pub request_node : W → Result FileNode Text
  pub runner : Text → List Text → W → Result Text Text × W
  pub now : W → Text × W
  pub local_time : W → Option LocalTime × W
  pub reboot_marker_exists : W → Bool
  pub from_slice : List ℕ → Option ApplyRequest
  pub write_atomic : ApplyResult → W → Result (Unit {0}) Text × W
  pub remove_file : W → W

pub record Outcome : Type 0 where
  pub result : ApplyResult
  pub reboot : Bool

-- The world, and what was done to it so far.
pub record State (W : Type 0) : Type 0 where
  pub world : W
  pub events : List Event

abbrev pub apt_get : Text
apt_get = codes "apt-get"

abbrev pub simulate_args : List Text
simulate_args = codes "-s" ∷ codes "-o" ∷ codes "Debug::NoLocking=1" ∷ codes "upgrade" ∷ []
