-- ===== src/Aborad/Updates/Reports.antt =====
-- What checks and reports of services/aborad/src/state.rs keep and say.
use abora_framework.Common.{◌≡◌, refl, All, Result, ok, err, Text}
use abora_framework.Update.{Channel, AvailableUpdates}
use abora_framework.Update.Host.Provider.{UpdateError, check}
use abora_framework.Update.Host.Provider.Checks.{HasValidName, IsChecked, check-IsChecked}
use abora_framework.Update.Store.{StoreData, StoreError}
use abora_framework.Aborad.Updates.{Updates, provider_of, refreshed, refresh}

module _ (save : Text → StoreData → Result (Unit {0}) StoreError) where
  -- The list of the last check has names of packages only, whatever apt-get prints.
  pub refresh-HasValidName :
      (channel : Channel) (now : Text) (output : Result Text Text) (u : Updates)
      → All HasValidName u.state.available
      → All HasValidName (refresh save channel now output u).0.state.available
  unfolding refresh refreshed
  refresh-HasValidName channel now output u h =
      go (check save channel now output (provider_of u)).1
        (check-IsChecked save channel now output (provider_of u))
    where
      go :
          (r : Result AvailableUpdates UpdateError)
          → ((found : AvailableUpdates)
              → r ≡ ok found
              → IsChecked now (check save channel now output (provider_of u)).0 found)
          → All HasValidName
              (refreshed save u
                ((check save channel now output (provider_of u)).0, r)).0.state.available
      go (err e) k = h
      go (ok found) k = (k found refl).names
