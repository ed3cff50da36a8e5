-- ===== src/Aborad/State/Tests.antt =====
-- Two updates found, an open window, and the helper's result for one of them.
use abora_framework.Common.{
  ◌≡◌, ◌↔◌, refl, ap, arith, Bool, true, false, [], ◌∷◌, Option, none, some, Result, ok, Some, Text,
  codes,
}
use abora_framework.Core.Version
use abora_framework.Config.Settings.{Config, default_config}
use abora_framework.Config.Clock.{parse_clock}
use abora_framework.Config.Schedule.{LocalTime, permissions, in_window}
use abora_framework.Update.{stable, sunday, MaintenanceWindow, AvailableUpdate}
use abora_framework.Update.Host.{valid_package_name}
use abora_framework.Update.Apply.{
  ApplyRequest, ApplyResult, FileNode, valid_request_id, validate_request, read_regular_file,
}
use abora_framework.Update.Store.{StoreData, StoreError, in_memory, history, change, record_update}
use abora_framework.Aborad.State.{
  UpdatesState, ApplyResponse, requested_packages, insert, sort, dedup, request_apply,
  ingest_apply_result,
}
use abora_framework.Aborad.State.Packages.{IsStrict, requested_packages-IsStrict}
use abora_framework.Aborad.State.Requests.{
  IsPossible, the_request, request_apply_iff, request_apply-IsValid,
}
use abora_framework.Aborad.State.Results.{ingest_apply_result-twice}

abbrev update_of : Text → AvailableUpdate
update_of component = record {
  channel = stable;
  version = Version.new 1 0 0;
  component = component;
  summary = [];
  release_notes = none;
  size_bytes = 0;
  released_at = none;
  checksums = none;
}

abbrev state : UpdatesState
state = record {
  store = in_memory;
  available = update_of (codes "openssl") ∷ update_of (codes "curl") ∷ [];
}

abbrev night : MaintenanceWindow
night = record {
  days = sunday ∷ [];
  start = codes "02:00";
  end = codes "04:00";
  max_duration_minutes = none;
}

abbrev config : Config
config = record default_config { maintenance = record { enabled = true; windows = night ∷ [] } }

abbrev time : Option LocalTime
time = some (record { weekday = sunday; minutes = 180 })

abbrev id : Text
id = codes "apply-0123456789abcdef"

abbrev write : ApplyRequest → Result (Unit {0}) Text
write request = ok tt

abbrev request : ApplyRequest
request = record {
  id = id;
  requested_at = codes "now";
  requested_by = codes "admin";
  packages = codes "curl" ∷ codes "openssl" ∷ [];
}

request_written :
    (request_apply write state config (codes "admin") false false time id (codes "now")).1
    ≡ some request
unfolding request_apply permissions in_window parse_clock requested_packages dedup sort insert
request_written = refl

abbrev response : ApplyResponse
response = record {
  dry_run = true;
  permitted = true;
  reason = none;
  id = none;
  packages = codes "curl" ∷ codes "openssl" ∷ [];
}

dry_answer :
    (request_apply write state config (codes "admin") true false time id (codes "now")).0
    ≡ ok response
unfolding request_apply permissions in_window parse_clock requested_packages dedup sort insert
dry_answer = refl

id_accepted : valid_request_id id ≡ true
unfolding valid_request_id
id_accepted = refl

curl_accepted : valid_package_name (codes "curl") ≡ true
unfolding valid_package_name
curl_accepted = refl

openssl_accepted : valid_package_name (codes "openssl") ≡ true
unfolding valid_package_name
openssl_accepted = refl

requested_packages-IsStrict_example :
    IsStrict (requested_packages state.available)
    × (Some (λ q. q ≡ codes "curl") (requested_packages state.available)
        ↔ Some (λ (u : AvailableUpdate). u.component ≡ codes "curl") state.available)
requested_packages-IsStrict_example = requested_packages-IsStrict state.available (codes "curl")

request_apply_iff_example :
    ((request_apply write state config (codes "admin") false false time id (codes "now")).1
      ≡ some request)
    ↔ ((false ≡ false)
        × IsPossible write state config (codes "admin") false time id (codes "now")
        × (write (the_request write state config (codes "admin") false time id (codes "now"))
            ≡ ok tt)
        × (request ≡ the_request write state config (codes "admin") false time id (codes "now")))
request_apply_iff_example =
    request_apply_iff write state config (codes "admin") false time id (codes "now") false request

request_apply-IsValid_example : validate_request request ≡ ok tt
request_apply-IsValid_example =
    request_apply-IsValid write state config (codes "admin") false time id (codes "now") false
      request id_accepted (openssl_accepted, (curl_accepted, tt)) (omega arith) request_written

abbrev saves : Text → StoreData → Result (Unit {0}) StoreError
saves path d = ok tt

abbrev result : ApplyResult
result = record {
  id = id;
  started_at = codes "t0";
  finished_at = codes "t1";
  succeeded = true;
  packages = codes "curl" ∷ [];
  note = none;
  reboot_started = false;
}

abbrev result_file : Result FileNode Text
result_file = ok (record { is_file = true; size = 9; age = none; content = ok [] })

abbrev after : Bool × UpdatesState
after = ingest_apply_result saves stable (λ bytes. some result) result_file state

taken_up : after.0 ≡ true
unfolding ingest_apply_result read_regular_file valid_request_id history record_update change
taken_up = refl

ingest_apply_result-twice_example :
    ingest_apply_result saves stable (λ bytes. some result) result_file after.1 ≡ (false, after.1)
ingest_apply_result-twice_example =
    ingest_apply_result-twice saves stable (λ bytes. some result) result_file state after.1
      (ap (λ b. (b, after.1)) taken_up)
