-- ===== src/Aborad/Updates.antt =====
-- The rest of UpdatesState in services/aborad/src/state.rs: a check, the health, and what GET updates
-- reports; with the health route of services/aborad/src/handlers.rs. What the file system, apt-get and
-- the clocks answer are parameters.
pub mod Reports
use abora_framework.Common.{
  ℕ, Bool, true, false, not, List, [], ◌∷◌, length, is_empty, any, Option, none, some, Result, ok,
  err, Text, codes, if◌then◌else◌,
}
use abora_framework.Update.{
  Channel, AvailableUpdate, AvailableUpdates, UpdateStatus, up_to_date, update_available,
  installing, error, RebootStatus,
}
use abora_framework.Update.Host.Provider.{
  UpdateError, HostPackageProvider, LastCheck, check, reboot_required, status, update_message,
}
use abora_framework.Update.Store.{StoreData, StoreError, UpdateStore, history}
use abora_framework.Api.{
  HealthStatus, healthy, degraded, maintenance, ComponentHealth, ScheduleInfo, UpdatesResponse,
}
use abora_framework.Aborad.State.{UpdatesState}

-- the state with the provider's last check and the policy that was reported last
pub record Updates : Type 0 where
  pub state : UpdatesState
  pub last : Option LastCheck
  pub schedule : Option ScheduleInfo

-- `UpdatesState::host`
abbrev pub first_updates : UpdateStore → Updates
first_updates store = record {
  state = record { store = store; available = [] };
  last = none;
  schedule = none;
}

-- the provider and the state share the store
abbrev pub provider_of : Updates → HostPackageProvider
provider_of u = record { store = u.state.store; last = u.last }

abbrev pub with_provider : Updates → HostPackageProvider → Updates
with_provider u p = record u { state = record (u.state) { store = p.store }; last = p.last }

module _ (save : Text → StoreData → Result (Unit {0}) StoreError) where
  refreshed :
      Updates → HostPackageProvider × Result AvailableUpdates UpdateError → Updates × Result ℕ Text
  refreshed u (p, err e) = (with_provider u p, err (update_message e))
  refreshed u (p, ok found) = (
    record (with_provider u p) { state = record { store = p.store; available = found.updates } },
    ok (length found.updates),
  )

  -- `refresh`, with the present time and what the simulation answers
  unfoldable pub refresh : Channel → Text → Result Text Text → Updates → Updates × Result ℕ Text
  unfolding refreshed
  refresh channel now output u = refreshed u (check save channel now output (provider_of u))

  -- `unwrap_or_else(|_| self.store.reboot())`
  abbrev reboot_or_stored : HostPackageProvider × Result RebootStatus UpdateError → RebootStatus
  reboot_or_stored (p, ok r) = r
  reboot_or_stored (p, err e) = p.store.data'.reboot

  abbrev status_or_none : Result UpdateStatus UpdateError → Option UpdateStatus
  status_or_none (ok s) = some s
  status_or_none (err e) = none

  -- `response`, with whether a request is waiting, and the marker, its packages and the present time
  unfoldable pub response :
      Bool → Bool → Result Text Text → Text → Updates → Updates × UpdatesResponse
  response pending marker packages now u =
      let reported = reboot_required save marker packages now (provider_of u) in
      (
        with_provider u reported.0,
        record {
          status =
              if pending
              then some (installing (codes "host packages") none)
              else status_or_none (status (provider_of u));
          last_check = u.state.store.data'.last_check;
          reboot = reboot_or_stored reported;
          schedule = u.schedule;
          available = u.state.available;
          history = history reported.0.store;
        },
      )

unfoldable pub set_schedule : ScheduleInfo → Updates → Updates
set_schedule info u = record u { schedule = some info }

abbrev health_of : Result UpdateStatus UpdateError → HealthStatus × Option Text
health_of (ok (error message)) = (degraded, some message)
health_of (err e) = (healthy, some (update_message e))
health_of (ok up_to_date) = (healthy, none)
health_of (ok (update_available vs)) = (healthy, none)
health_of (ok (installing c p)) = (healthy, none)

unfoldable pub health : Updates → ComponentHealth
health u = record {
  name = codes "updates";
  status = (health_of (status (provider_of u))).0;
  detail = (health_of (status (provider_of u))).1;
}

abbrev pub is_degraded : ComponentHealth → Bool
is_degraded c = elim c.status [ healthy ↦ false | degraded ↦ true | maintenance ↦ false ]

-- the status of `GET health`, over the components
unfoldable pub overall_health : List ComponentHealth → HealthStatus
overall_health components = if any is_degraded components then degraded else healthy

-- whether something is available, and whether a request is waiting
abbrev pub apply_inputs : Bool → Updates → Bool × Bool
apply_inputs pending u = (not (is_empty u.state.available), pending)
