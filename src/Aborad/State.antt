-- ===== src/Aborad/State.antt =====
-- services/aborad/src/state.rs: how the daemon asks the root helper to apply updates, and how it takes
-- up the result. Time, ids, JSON and the file system are parameters.
pub mod Members
pub mod Packages
pub mod Requests
pub mod Results
mod Tests
use abora_framework.Common.{
  ℕ, ◌==◌, ltb, Bool, true, false, not, ◌&&◌, ◌||◌, List, [], ◌∷◌, ◌++◌, map, Option, none, some,
  Result, ok, err, Text, codes, text_eq, text_leb, starts_with, length, is_empty, any, filter,
  if◌then◌else◌,
}
use abora_framework.Common.Decimal.{show}
use abora_framework.Core.Version
use abora_framework.Config.Settings.{Config}
use abora_framework.Config.Schedule.{LocalTime, permissions}
use abora_framework.Update.{Channel, AvailableUpdate, UpdateHistoryEntry}
use abora_framework.Update.Apply.{
  ApplyRequest, ApplyResult, FileNode, ReadError, valid_request_id, read_regular_file,
}
use abora_framework.Update.Store.{StoreData, StoreError, UpdateStore, history, record_update}

-- What the handlers share of `UpdatesState`.
pub record UpdatesState : Type 0 where
  pub store : UpdateStore
  pub available : List AvailableUpdate

-- the place of a text in a sorted list
unfoldable pub insert : Text → List Text → List Text
insert x [] = x ∷ []
insert x (y ∷ ys) = let rest = insert x ys in if text_leb x y then x ∷ y ∷ ys else y ∷ rest

-- `sort`
unfoldable pub sort : List Text → List Text
unfolding insert
sort [] = []
sort (x ∷ xs) = insert x (sort xs)

abbrev pub keep_new : Text → List Text → List Text
keep_new x [] = x ∷ []
keep_new x (y ∷ ys) = if text_eq x y then y ∷ ys else x ∷ y ∷ ys

-- `dedup`: equal neighbours become one
unfoldable pub dedup : List Text → List Text
dedup [] = []
dedup (x ∷ xs) = keep_new x (dedup xs)

-- the components of the last check, sorted, each once
unfoldable pub requested_packages : List AvailableUpdate → List Text
requested_packages available = dedup (sort (map (λ (u : AvailableUpdate). u.component) available))

pub record ApplyResponse : Type 0 where
  pub dry_run : Bool
  pub permitted : Bool
  pub reason : Option Text
  pub id : Option Text
  pub packages : List Text

pub data ApplyRefusal : Type 0 where
  conflict internal : Text → ApplyRefusal

-- why an apply is not possible now, if it is not
pub block_of : Bool → List Text → Bool → Option Text
block_of pending packages permitted =
    if pending
    then some (codes "an update is already being applied")
    else if is_empty packages
    then some (codes "no updates are available; the last check found nothing")
    else if not permitted
    then some (
        codes
          "updates may only be applied inside a maintenance window ([maintenance] enabled, and the local time inside a window)")
    else none

abbrev pub is_none : Option Text → Bool
is_none none = true
is_none (some reason) = false

-- The answer, and the request that is written, if one is.
abbrev pub Answer : Type 0
Answer = Result ApplyResponse ApplyRefusal × Option ApplyRequest

-- after `write_atomic`
unfoldable pub written : ApplyRequest → Result (Unit {0}) Text → Answer
written request (err e) = (err (internal (codes "could not write the apply request: " ++ e)), none)
written request (ok _) = (
  ok (record {
    dry_run = false;
    permitted = true;
    reason = none;
    id = some request.id;
    packages = request.packages;
  }),
  some request,
)

-- a real request, which a reason stops
unfoldable pub unblocked :
    (ApplyRequest → Result (Unit {0}) Text) → ApplyRequest → Option Text → Answer
unfolding written
unblocked write request (some reason) = (err (conflict reason), none)
unblocked write request none = written request (write request)

-- `request_apply`, with whether a request is waiting, the local time, a new id and the present time
unfoldable pub request_apply :
    (ApplyRequest → Result (Unit {0}) Text)
    → UpdatesState
    → Config
    → Text
    → Bool
    → Bool
    → Option LocalTime
    → Text
    → Text
    → Answer
unfolding block_of unblocked
request_apply write s config caller dry_run pending time id now =
    let packages = requested_packages s.available in
    let block = block_of pending packages (permissions config time).apply_permitted in
    if dry_run
    then (
      ok (record {
        dry_run = true;
        permitted = is_none block;
        reason = block;
        id = none;
        packages = packages;
      }),
      none,
    )
    else unblocked write
        (record { id = id; requested_at = now; requested_by = caller; packages = packages }) block

abbrev key_of : Text → Text
key_of id = codes "apply " ++ id

abbrev note_starts : Text → Option Text → Bool
note_starts key none = false
note_starts key (some note) = starts_with note key

-- whether an entry for this id stands in the history
already : Text → List UpdateHistoryEntry → Bool
already key entries = any (λ (h : UpdateHistoryEntry). note_starts key h.note) entries

abbrev with_extra : Option Text → Text
with_extra none = []
with_extra (some extra) = codes "; " ++ extra

abbrev note_of : ApplyResult → Text
note_of result =
    key_of result.id
    ++ (codes ": "
        ++ show (length result.packages)
        ++ codes " package(s)"
        ++ with_extra result.note
        ++ (if result.reboot_started then codes "; reboot started" else []))

entry_of : Channel → ApplyResult → UpdateHistoryEntry
entry_of channel result = record {
  applied_at = result.finished_at;
  from_version = Version.new 0 0 0;
  to_version = Version.new 0 0 0;
  channel = channel;
  component = codes "host packages";
  succeeded = result.succeeded;
  note = some (note_of result);
}

abbrev lists : List Text → AvailableUpdate → Bool
lists packages u = any (λ p. text_eq p u.component) packages

-- after `record_update`; what was just upgraded is no longer listed
recorded :
    UpdatesState → ApplyResult → UpdateStore × Result (Unit {0}) StoreError → Bool × UpdatesState
recorded s result (store, err e) = (false, record s { store = store })
recorded s result (store, ok _) = (
  true,
  record {
    store = store;
    available =
        if result.succeeded
        then filter (λ u. not (lists result.packages u)) s.available
        else s.available;
  },
)

module _ (save : Text → StoreData → Result (Unit {0}) StoreError) (channel : Channel) where
  ingest_parsed : Option ApplyResult → UpdatesState → Bool × UpdatesState
  unfolding recorded already entry_of
  ingest_parsed none s = (false, s)
  ingest_parsed (some result) s =
      if not (valid_request_id result.id) && not (text_eq result.id (codes "invalid"))
      then (false, s)
      else if already (key_of result.id) (history s.store)
      then (false, s)
      else recorded s result (record_update save (entry_of channel result) s.store)

  ingest_read :
      (List ℕ → Option ApplyResult) → Result (List ℕ) ReadError → UpdatesState → Bool × UpdatesState
  ingest_read from_slice (err e) s = (false, s)
  ingest_read from_slice (ok bytes) s = ingest_parsed (from_slice bytes) s

  -- `ingest_apply_result`, with what stands at the result's path
  unfoldable pub ingest_apply_result :
      (List ℕ → Option ApplyResult) → Result FileNode Text → UpdatesState → Bool × UpdatesState
  unfolding ingest_read ingest_parsed
  ingest_apply_result from_slice node s = ingest_read from_slice (read_regular_file node none) s
