-- ===== src/Update/Store.antt =====
-- crates/abora-update/src/store.rs: the persistent update state. The file system is outside: a save
-- is a function of the path's text and the data, which returns the error or nothing.
pub mod Changes
pub mod Newest
use abora_framework.Common.{
  ℕ, ◌-◌, Bool, false, List, [], ◌∷◌, ◌++◌, Option, none, some, Result, ok, err, Text, codes,
  length, drop, ltb, if◌then◌else◌,
}
use mathlib.Core.List.{reverse}
use abora_framework.Update.{RebootStatus, UpdateHistoryEntry}

abbrev pub schema_version : ℕ
schema_version = 1

abbrev pub max_history : ℕ
max_history = 500

pub record StoreData : Type 0 where
  pub schema : ℕ
  pub last_check : Option Text
  pub reboot : RebootStatus
  pub history : List UpdateHistoryEntry

abbrev pub no_reboot : RebootStatus
no_reboot = record { required = false; reason = none; pending_since = none }

abbrev pub default_data : StoreData
default_data = record {
  schema = schema_version;
  last_check = none;
  reboot = no_reboot;
  history = [];
}

pub data Opened : Type 0 where
  fresh loaded : Opened
  recovered : Text → Opened

pub data StoreError : Type 0 where
  io : Text → Text → StoreError
  newer_schema : Text → ℕ → ℕ → StoreError

-- `path` is `none` for a store in memory.
pub record UpdateStore : Type 0 where
  pub path : Option Text
  pub data' : StoreData

abbrev pub in_memory : UpdateStore
in_memory = record { path = none; data' = default_data }

-- What `fs::read` finds.
pub data ReadOutcome : Type 0 where
  found : List ℕ → ReadOutcome
  not_found : ReadOutcome
  failed : Text → ReadOutcome

-- the oldest entries go
unfoldable pub trim_history : StoreData → StoreData
trim_history d =
    if ltb max_history (length d.history)
    then record d { history = drop (length d.history - max_history) d.history }
    else d

-- after `serde_json::from_slice`; the result of the rename is used only where the file is damaged
open_parsed :
    Text → Option StoreData → Result (Unit {0}) Text → Result (StoreData × Opened) StoreError
open_parsed path (some d) rename =
    if ltb schema_version d.schema
    then err (newer_schema path d.schema schema_version)
    else ok (d, loaded)
open_parsed path none (ok _) = ok (default_data, recovered (path ++ codes ".corrupt"))
open_parsed path none (err e) = err (io path e)

open_read :
    (List ℕ → Option StoreData)
    → Text
    → ReadOutcome
    → Result (Unit {0}) Text
    → Result (StoreData × Opened) StoreError
unfolding open_parsed
open_read from_slice path (found bytes) rename = open_parsed path (from_slice bytes) rename
open_read from_slice path not_found rename = ok (default_data, fresh)
open_read from_slice path (failed e) rename = err (io path e)

trim_opened :
    Text → Result (StoreData × Opened) StoreError → Result (UpdateStore × Opened) StoreError
trim_opened path (err e) = err e
trim_opened path (ok (d, opened)) = ok (record { path = some path; data' = trim_history d }, opened)

-- `UpdateStore::open`, with the JSON parser, what is read and what a rename to the backup returns
unfoldable pub open' :
    (List ℕ → Option StoreData)
    → Text
    → ReadOutcome
    → Result (Unit {0}) Text
    → Result (UpdateStore × Opened) StoreError
unfolding open_read trim_opened trim_history
open' from_slice path read rename = trim_opened path (open_read from_slice path read rename)

-- newest first
unfoldable pub history : UpdateStore → List UpdateHistoryEntry
history s = reverse s.data'.history

module _ (save : Text → StoreData → Result (Unit {0}) StoreError) where
  pub save_at : Option Text → StoreData → Result (Unit {0}) StoreError
  save_at none d = ok tt
  save_at (some path) d = save path d

  after_save :
      UpdateStore
      → StoreData
      → Result (Unit {0}) StoreError
      → UpdateStore × Result (Unit {0}) StoreError
  after_save s next (ok _) = (record s { data' = next }, ok tt)
  after_save s next (err e) = (s, err e)

  -- edit a copy, save it, and only then make it the live state
  unfoldable pub change :
      (StoreData → StoreData) → UpdateStore → UpdateStore × Result (Unit {0}) StoreError
  unfolding save_at after_save trim_history
  change edit s = let next = trim_history (edit s.data') in after_save s next (save_at s.path next)

  unfoldable pub record_check : Text → UpdateStore → UpdateStore × Result (Unit {0}) StoreError
  record_check when = change (λ d. record d { last_check = some when })

  unfoldable pub record_update :
      UpdateHistoryEntry → UpdateStore → UpdateStore × Result (Unit {0}) StoreError
  record_update entry = change (λ d. record d { history = d.history ++ entry ∷ [] })

  unfoldable pub set_reboot :
      RebootStatus → UpdateStore → UpdateStore × Result (Unit {0}) StoreError
  set_reboot status = change (λ d. record d { reboot = status })
