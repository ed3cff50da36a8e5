-- ===== src/Helper/Process.antt =====
-- `process` of services/abora-apply/src/main.rs: what is done with a waiting request.
pub mod Commands
pub mod Outcomes
use abora_framework.Common.{
  ℕ, Bool, true, false, not, ◌&&◌, List, [], ◌∷◌, ◌++◌, map, Option, none, some, Result, ok, err,
  Text, codes, text_eq, length, is_empty, any, filter, if◌then◌else◌,
}
use abora_framework.Common.Decimal.{show}
use abora_framework.Config.Settings.{Config}
use abora_framework.Config.Schedule.{LocalTime, Permissions, permissions}
use abora_framework.Update.Host.{PackageUpgrade, parse_simulation}
use abora_framework.Update.Apply.{
  ApplyRequest, ApplyResult, FileNode, ReadError, RequestError, max_request_age, valid_request_id,
  validate_request, install_args, read_regular_file, read_message, request_message,
}
use abora_framework.Helper.{
  Event, command, write_result, remove_request, Ctx, Outcome, State, apt_get, simulate_args,
}

unfoldable pub refuse : Text → Text → Text → Text → Outcome
refuse id started now note = record {
  result = record {
    id = id;
    started_at = started;
    finished_at = now;
    succeeded = false;
    packages = [];
    note = some note;
    reboot_started = false;
  };
  reboot = false;
}

abbrev pub contains : List Text → Text → Bool
contains xs p = any (λ x. text_eq x p) xs

abbrev window_note : Text
window_note =
    codes
      "refused: updates may only be applied inside a maintenance window ([maintenance] enabled, and the local time inside a window)"

abbrev nothing_note : Text
nothing_note = codes "nothing to do: none of the requested packages is upgradable any more"

abbrev reboot_note : Text
reboot_note = codes "a reboot is needed but policy does not allow one now"

skipped_note : List Text → Option Text
skipped_note [] = none
skipped_note (p ∷ ps) = some (
    show (length (p ∷ ps))
    ++ codes " requested package(s) were no longer upgradable and were skipped")

-- `note.map_or_else(|| extra, |n| format!("{n}; {extra}"))`, where a reboot is held back
held_note : Bool → Option Text → Option Text
held_note false note = note
held_note true none = some reboot_note
held_note true (some n) = some (n ++ codes "; " ++ reboot_note)

module _ {W : Type 0} (ctx : Ctx W) where
  -- run a command, and record it
  unfoldable pub run_command : Text → List Text → State W → Result Text Text × State W
  run_command program args s =
      let (result, world) = ctx.runner program args s.world in
      (result, record { world = world; events = s.events ++ command program args ∷ [] })

  fail : Text → Text → Text → State W → Option Outcome × State W
  fail id started note s =
      let (t, world) = ctx.now s.world in
      (some (refuse id started t note), record s { world = world })

  -- after `apt-get install`
  installed :
      ApplyRequest
      → Text
      → Permissions
      → List Text
      → List Text
      → Result Text Text
      → State W
      → Option Outcome × State W
  unfolding held_note skipped_note
  installed request started perms todo gone (err e) s =
      fail request.id started (codes "apt-get failed: " ++ e) s
  installed request started perms todo gone (ok out) s =
      let marker = ctx.reboot_marker_exists s.world in
      let reboot = marker && perms.reboot_permitted in
      let note = held_note (marker && not reboot) (skipped_note gone) in
      let (t, world) = ctx.now s.world in
      (
        some (record {
          result = record {
            id = request.id;
            started_at = started;
            finished_at = t;
            succeeded = true;
            packages = todo;
            note = note;
            reboot_started = reboot;
          };
          reboot = reboot;
        }),
        record s { world = world },
      )

  -- with the requested packages split into upgradable ones and others
  planned :
      ApplyRequest → Text → Permissions → List Text → List Text → State W → Option Outcome × State W
  planned request started perms [] gone s =
      let (t, world) = ctx.now s.world in
      let failed = refuse request.id started t [] in
      (
        some (record failed {
          result = record (failed.result) { succeeded = true; note = some nothing_note };
        }),
        record s { world = world },
      )
  planned request started perms (p ∷ ps) gone s =
      let (result, s') = run_command apt_get (install_args (p ∷ ps)) s in
      installed request started perms (p ∷ ps) gone result s'

  -- after the simulation
  simulated :
      ApplyRequest → Text → Permissions → Result Text Text → State W → Option Outcome × State W
  simulated request started perms (err e) s =
      fail request.id started (codes "could not check what is upgradable: " ++ e) s
  simulated request started perms (ok output) s =
      let upgradable = map (λ (u : PackageUpgrade). u.name) (parse_simulation output) in
      planned request started perms (filter (contains upgradable) request.packages)
        (filter (λ p. not (contains upgradable p)) request.packages) s

  policed : ApplyRequest → Text → Permissions → State W → Option Outcome × State W
  policed request started perms s =
      if not perms.apply_permitted
      then fail request.id started window_note s
      else let (result, s') = run_command apt_get simulate_args s in
        simulated request started perms result s'

  -- after `validate_request`
  checked :
      ApplyRequest → Text → Result (Unit {0}) RequestError → State W → Option Outcome × State W
  checked request started (err e) s =
      fail (if valid_request_id request.id then request.id else codes "invalid") started
        (codes "request refused: " ++ request_message e) s
  checked request started (ok _) s =
      let (t, world) = ctx.local_time s.world in
      policed request started (permissions ctx.config t) (record s { world = world })

  parsed : Text → Option ApplyRequest → State W → Option Outcome × State W
  parsed started none s = fail (codes "invalid") started (codes "request refused: not valid JSON") s
  parsed started (some request) s = checked request started (validate_request request) s

  -- after `read_regular_file`
  received : Text → Result (List ℕ) ReadError → State W → Option Outcome × State W
  received started (err e) s =
      fail (codes "invalid") started
        (codes "request refused: " ++ read_message ctx.request_path max_request_age e) s
  received started (ok bytes) s = parsed started (ctx.from_slice bytes) s

  -- `None` where no request is waiting
  present : Result FileNode Text → State W → Option Outcome × State W
  present (err e) s = (none, s)
  present (ok node) s =
      let (started, world) = ctx.now s.world in
      received started (read_regular_file (ctx.request_node world) (some max_request_age))
        (record s { world = world })

  unfoldable pub process : State W → Option Outcome × State W
  unfolding present received parsed checked policed simulated planned installed fail run_command
  process s = present (ctx.request_node s.world) s
