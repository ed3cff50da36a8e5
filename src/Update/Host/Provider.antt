-- ===== src/Update/Host/Provider.antt =====
-- HostPackageProvider of crates/abora-update/src/host.rs: checks, the status after them, and the
-- reboot marker. Running apt-get, the marker's files, the clock and saving are parameters.
pub mod Reboots
pub mod Checks
mod Tests
use abora_framework.Common.{
  ℕ, Bool, true, false, List, [], ◌∷◌, ◌++◌, map, take, Option, none, some, Result, ok, err, Text,
  codes, lines, join, is_empty, if◌then◌else◌,
}
use abora_framework.Common.Decimal.{show}
use abora_framework.Update.{
  Channel, AvailableUpdate, AvailableUpdates, UpdateStatus, up_to_date, update_available, error,
  RebootStatus,
}
use abora_framework.Update.Host.{PackageUpgrade, parse_simulation, version_from_debian}
use abora_framework.Update.Store.{
  StoreData, StoreError, io, newer_schema, UpdateStore, no_reboot, record_check, set_reboot,
}

pub data UpdateError : Type 0 where
  not_implemented unsupported conflict source : Text → UpdateError

-- `Display` of StoreError
pub store_message : StoreError → Text
store_message (io path message) =
    codes "update store I/O error at " ++ (path ++ (codes ": " ++ message))
store_message (newer_schema path found supported) =
    codes "update store "
    ++ (path
        ++ (codes " was written by a newer version (schema "
            ++ (show found
                ++ (codes ", this build understands "
                    ++ (show supported ++ codes "); refusing to overwrite it")))))

abbrev pub store_err : StoreError → UpdateError
store_err e = source (store_message e)

pub data LastCheck : Type 0 where
  updates : List Text → LastCheck
  failed : Text → LastCheck

-- what the provider keeps: the store it shares, and the outcome of the last check
pub record HostPackageProvider : Type 0 where
  pub store : UpdateStore
  pub last : Option LastCheck

abbrev summary_of : PackageUpgrade → Option Text → Text
summary_of u (some from) =
    u.name
    ++ (codes ": " ++ (from ++ (codes " -> " ++ (u.to ++ (codes " (" ++ (u.source ++ codes ")"))))))
summary_of u none = u.name ++ (codes ": new, " ++ (u.to ++ (codes " (" ++ (u.source ++ codes ")"))))

unfoldable pub available_of : Channel → PackageUpgrade → AvailableUpdate
available_of channel u = record {
  channel = channel;
  version = version_from_debian u.to;
  component = u.name;
  summary = summary_of u u.from;
  release_notes = none;
  size_bytes = 0;
  released_at = none;
  checksums = none;
}

abbrev pub name_and_version : PackageUpgrade → Text
name_and_version u = u.name ++ (codes " " ++ u.to)

-- `.lines().take(5)…join(", ")`, unless it is empty
abbrev packages_of : Result Text Text → Option Text
packages_of (err e) = none
packages_of (ok s) =
    let text = join (codes ", ") (take 5 (lines s)) in if is_empty text then none else some text

abbrev reason_of : Option Text → Text
reason_of none = codes "the system reports that a reboot is required"
reason_of (some p) = codes "updated packages need a reboot: " ++ p

-- what is remembered when the marker is first seen
abbrev pub first_seen : Result Text Text → Text → RebootStatus
first_seen packages now = record {
  required = true;
  reason = some (reason_of (packages_of packages));
  pending_since = some now;
}

module _ (save : Text → StoreData → Result (Unit {0}) StoreError) where
  check_saved :
      Channel
      → List PackageUpgrade
      → HostPackageProvider
      → UpdateStore × Result (Unit {0}) StoreError
      → HostPackageProvider × Result AvailableUpdates UpdateError
  check_saved channel upgrades p (store, err e) = (record p { store = store }, err (store_err e))
  check_saved channel upgrades p (store, ok _) = (
    record p { store = store },
    ok (record { channel = channel; updates = map (available_of channel) upgrades }),
  )

  check_output :
      Channel
      → Text
      → Result Text Text
      → HostPackageProvider
      → HostPackageProvider × Result AvailableUpdates UpdateError
  unfolding check_saved
  check_output channel now (err message) p =
      (record p { last = some (failed message) }, err (source message))
  check_output channel now (ok output) p =
      let upgrades = parse_simulation output in
      check_saved channel upgrades
        (record p { last = some (updates (map name_and_version upgrades)) })
        (record_check save now p.store)

  -- `check`, with the present time and what the simulation answers
  unfoldable pub check :
      Channel
      → Text
      → Result Text Text
      → HostPackageProvider
      → HostPackageProvider × Result AvailableUpdates UpdateError
  unfolding check_output
  check channel now output p = check_output channel now output p

  abbrev cleared :
      HostPackageProvider
      → UpdateStore × Result (Unit {0}) StoreError
      → HostPackageProvider × Result RebootStatus UpdateError
  cleared p (store, err e) = (record p { store = store }, err (store_err e))
  cleared p (store, ok _) = (record p { store = store }, ok no_reboot)

  abbrev noted :
      HostPackageProvider
      → RebootStatus
      → UpdateStore × Result (Unit {0}) StoreError
      → HostPackageProvider × Result RebootStatus UpdateError
  noted p status (store, err e) = (record p { store = store }, err (store_err e))
  noted p status (store, ok _) = (record p { store = store }, ok status)

  -- `reboot_required`, with whether the marker exists, the list of packages and the present time
  unfoldable pub reboot_required :
      Bool
      → Result Text Text
      → Text
      → HostPackageProvider
      → HostPackageProvider × Result RebootStatus UpdateError
  reboot_required marker packages now p =
      let current = p.store.data'.reboot in
      if marker
      then if current.required
        then (p, ok current)
        else noted p (first_seen packages now) (set_reboot save (first_seen packages now) p.store)
      else if current.required
      then cleared p (set_reboot save no_reboot p.store)
      else (p, ok no_reboot)

abbrev status_after : List Text → UpdateStatus
status_after [] = up_to_date
status_after (v ∷ vs) = update_available (v ∷ vs)

unfoldable pub status : HostPackageProvider → Result UpdateStatus UpdateError
status p = elim p.last [
  | none ↦ err (conflict (codes "no update check has run yet"))
  | some (failed message) ↦ ok (error message)
  | some (updates versions) ↦ ok (status_after versions)
]

-- `Display` of UpdateError
abbrev pub update_message : UpdateError → Text
update_message (not_implemented m) = codes "not implemented: " ++ m
update_message (unsupported m) = codes "unsupported: " ++ m
update_message (conflict m) = codes "update conflict: " ++ m
update_message (source m) = codes "update source failure: " ++ m
