-- ===== src/Update/Host/Provider/Tests.antt =====
-- A check that finds one update, and a marker that is seen twice.
use abora_framework.Common.{◌≡◌, refl, true, [], ◌∷◌, none, some, Result, ok, err, Text, codes}
use abora_framework.Update.{stable, AvailableUpdates}
use abora_framework.Update.Host.{parse_simulation}
use abora_framework.Update.Store.{
  StoreData, StoreError, in_memory, change, record_check, set_reboot,
}
use abora_framework.Update.Host.Provider.{
  HostPackageProvider, available_of, first_seen, check, reboot_required,
}
use abora_framework.Update.Host.Provider.Checks.{IsChecked, check-IsChecked}
use abora_framework.Update.Host.Provider.Reboots.{reboot_required-again}

abbrev save : Text → StoreData → Result (Unit {0}) StoreError
save path d = ok tt

abbrev provider : HostPackageProvider
provider = record { store = in_memory; last = none }

abbrev packages : Result Text Text
packages = ok (codes "linux-image\nlibc6\n")

first_report :
    (reboot_required save true packages (codes "noon") provider).1
    ≡ ok (first_seen packages (codes "noon"))
unfolding reboot_required set_reboot change
first_report = refl

reboot_required-again_example :
    reboot_required save true
      (err (codes "gone"))
      (codes "evening")
      (reboot_required save true packages (codes "noon") provider).0
    ≡ (
      (reboot_required save true packages (codes "noon") provider).0,
      ok (first_seen packages (codes "noon")),
    )
reboot_required-again_example =
    reboot_required-again save packages (err (codes "gone")) (codes "noon") (codes "evening")
      provider (first_seen packages (codes "noon")) first_report

abbrev output : Text
output = codes "Inst curl [8.5] (8.6 U [amd64])"

abbrev found : AvailableUpdates
found = record {
  channel = stable;
  updates =
      available_of stable (record {
        name = codes "curl";
        from = some (codes "8.5");
        to = codes "8.6";
        source = codes "U [amd64]";
      })
      ∷ [];
}

one_found : (check save stable (codes "noon") (ok output) provider).1 ≡ ok found
unfolding check parse_simulation record_check change available_of
one_found = refl

check-IsChecked_example :
    IsChecked (codes "noon") (check save stable (codes "noon") (ok output) provider).0 found
check-IsChecked_example =
    check-IsChecked save stable (codes "noon") (ok output) provider found one_found
