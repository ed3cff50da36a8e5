-- ===== src/Update/Tests.antt =====
-- Requests, request files and stores as the source's unit tests build them.
use abora_framework.Common.{
  ◌≡◌, ◌↔◌, refl, arith, true, [], ◌∷◌, ◌++◌, none, some, ok, err, Result, Text, codes, take,
}
use mathlib.Core.List.{reverse}
use abora_framework.Core.Version
use abora_framework.Update.{stable, UpdateHistoryEntry}
use abora_framework.Update.Host.{valid_package_name}
use abora_framework.Update.Apply.{
  ApplyRequest, FileNode, valid_request_id, validate_request, install_args,
}
use abora_framework.Update.Apply.Requests.{
  IsValid, validate_request_iff, IsUpgradeLine, install_args_safe,
}
use abora_framework.Update.Store.{
  StoreData, StoreError, UpdateStore, found, recovered, max_history, default_data, open', history,
  change,
}
use abora_framework.Update.Store.Changes.{IsAtomic, change-IsAtomic}
use abora_framework.Update.Store.Newest.{record_all, history-record_all}

abbrev request : ApplyRequest
request = record {
  id = codes "req-0001";
  requested_at = codes "2026-01-01T00:00:00Z";
  requested_by = codes "admin";
  packages = codes "curl" ∷ codes "libssl3t64" ∷ [];
}

request_accepted : validate_request request ≡ ok tt
unfolding validate_request valid_request_id valid_package_name
request_accepted = refl

validate_request_iff_example : (validate_request request ≡ ok tt) ↔ IsValid request
validate_request_iff_example = validate_request_iff request

install_args_safe_example : IsUpgradeLine request.packages (install_args request.packages)
install_args_safe_example = install_args_safe request request_accepted

abbrev small_file : FileNode
small_file = record { is_file = true; size = 3; age = some 5; content = ok (1 ∷ 2 ∷ 3 ∷ []) }

abbrev saves : Text → StoreData → Result (Unit {0}) StoreError
saves path d = ok tt

abbrev broken : Text → StoreData → Result (Unit {0}) StoreError
broken path d = err (StoreError.io path (codes "No space left on device"))

abbrev store : UpdateStore
store = record { path = some (codes "/var/lib/abora/updates.json"); data' = default_data }

abbrev entry : UpdateHistoryEntry
entry = record {
  applied_at = codes "2026-01-01T00:00:00Z";
  from_version = Version.new 0 1 0;
  to_version = Version.new 0 2 0;
  channel = stable;
  component = codes "system";
  succeeded = true;
  note = none;
}

abbrev mark_checked : StoreData → StoreData
mark_checked d = record d { last_check = some (codes "now") }

change-IsAtomic_example : IsAtomic broken mark_checked store (change broken mark_checked store)
change-IsAtomic_example = change-IsAtomic broken mark_checked store

opened_recovered :
    open' (λ bytes. none) (codes "u.json") (found []) (ok tt)
    ≡ ok (
      record { path = some (codes "u.json"); data' = default_data },
      recovered (codes "u.json.corrupt"),
    )
unfolding open'
opened_recovered = refl

history-record_all_example :
    history (record_all saves (entry ∷ entry ∷ []) store)
    ≡ take max_history (reverse (entry ∷ entry ∷ []) ++ history store)
history-record_all_example =
    history-record_all saves (entry ∷ entry ∷ []) store (λ path d. refl) (omega arith)
