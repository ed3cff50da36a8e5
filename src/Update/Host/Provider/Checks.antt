-- ===== src/Update/Host/Provider/Checks.antt =====
-- What a check of HostPackageProvider in crates/abora-update/src/host.rs leaves behind.
use abora_framework.Common.{
  suc, ◌≡◌, refl, sym, ap, ◌∙◌, subst, true, List, [], ◌∷◌, map, All, some, Result, ok, err,
  ok-injective, Text, length, ltb, Bool-cases, inl, inr,
}
use abora_framework.Update.{
  Channel, AvailableUpdate, AvailableUpdates, UpdateStatus, up_to_date, update_available, error,
}
use abora_framework.Update.Host.{PackageUpgrade, valid_package_name, parse_simulation}
use abora_framework.Update.Host.Simulation.{IsAcceptable, parse_simulation-IsAcceptable}
use abora_framework.Update.Store.{
  StoreData, StoreError, UpdateStore, max_history, trim_history, record_check,
}
use abora_framework.Update.Store.Changes.{Changed, made, refused, change-Changed}
use abora_framework.Update.Host.Provider.{
  UpdateError, HostPackageProvider, updates, available_of, name_and_version, check_saved,
  check_output, check, status_after, status,
}

trim_history-last_check : (d : StoreData) → (trim_history d).last_check ≡ d.last_check
unfolding trim_history
trim_history-last_check d = elim (Bool-cases (ltb max_history (length d.history))) [
  | inl e ↦ rw e refl
  | inr e ↦ rw e refl
]

abbrev pub HasValidName : AvailableUpdate → Type 0
HasValidName u = valid_package_name u.component ≡ true

-- The status says what the list of updates says.
abbrev pub SaysUpdates : List AvailableUpdate → UpdateStatus → Type 0
SaysUpdates [] s = s ≡ up_to_date
SaysUpdates (u ∷ us) s =
    (versions : List Text) × (s ≡ update_available versions) × (length versions ≡ length (u ∷ us))

-- The update found has names of packages only, the time of the check is stored, and the status says
-- what was found.
pub record IsChecked (now : Text) (p : HostPackageProvider) (found : AvailableUpdates)
    : Type 0 where
  pub names : All HasValidName found.updates
  pub stored : p.store.data'.last_check ≡ some now
  pub told : UpdateStatus
  pub status_is : status p ≡ ok told
  pub says : SaysUpdates found.updates told

names_valid :
    (channel : Channel) (us : List PackageUpgrade)
    → All IsAcceptable us
    → All HasValidName (map (available_of channel) us)
unfolding available_of
names_valid channel [] h = tt
names_valid channel (u ∷ us) (hu, h) = (hu.name_valid, names_valid channel us h)

length-map : {A B : Type 0} (f : A → B) (xs : List A) → length (map f xs) ≡ length xs
length-map f [] = refl
length-map f (x ∷ xs) = ap suc (length-map f xs)

says_found :
    (channel : Channel) (us : List PackageUpgrade)
    → SaysUpdates (map (available_of channel) us) (status_after (map name_and_version us))
says_found channel [] = refl
says_found channel (u ∷ us) = (
  map name_and_version (u ∷ us),
  refl,
  ap suc (length-map name_and_version us ∙ sym (length-map (available_of channel) us)),
)

module _ (save : Text → StoreData → Result (Unit {0}) StoreError) where
  record_check-Changed :
      (now : Text) (s : UpdateStore)
      → Changed save (λ d. record d { last_check = some now }) s (record_check save now s)
  unfolding record_check
  record_check-Changed now s = change-Changed save (λ d. record d { last_check = some now }) s

  saved-IsChecked :
      (channel : Channel) (now output : Text) (p : HostPackageProvider)
      (x : UpdateStore × Result (Unit {0}) StoreError) (found : AvailableUpdates)
      → p.last ≡ some (updates (map name_and_version (parse_simulation output)))
      → Changed save (λ d. record d { last_check = some now }) p.store x
      → (check_saved save channel (parse_simulation output) p x).1 ≡ ok found
      → IsChecked now (check_saved save channel (parse_simulation output) p x).0 found
  unfolding check_saved status
  saved-IsChecked channel now output p x found l (refused e bad) h = cc
  saved-IsChecked channel now output p x found l (made good) h =
      let us = parse_simulation output in
      let is = ok-injective h in
      record {
        names =
            subst (λ (f : AvailableUpdates). All HasValidName f.updates) is
              (names_valid channel us (parse_simulation-IsAcceptable output));
        stored = trim_history-last_check (record p.store.data' { last_check = some now });
        told = status_after (map name_and_version us);
        status_is = rw l refl;
        says =
            subst
              (λ (f : AvailableUpdates).
                SaysUpdates f.updates (status_after (map name_and_version us)))
              is (says_found channel us);
      }

  -- After a successful check the updates have names of packages only, the store has the time of the
  -- check, and the status says that all is up to date where nothing was found, and names as many
  -- versions as updates were found otherwise.
  pub check-IsChecked :
      (channel : Channel) (now : Text) (output : Result Text Text) (p : HostPackageProvider)
      (found : AvailableUpdates)
      → (check save channel now output p).1 ≡ ok found
      → IsChecked now (check save channel now output p).0 found
  unfolding check check_output
  check-IsChecked channel now (err m) p found h = cc
  check-IsChecked channel now (ok output) p found h =
      saved-IsChecked channel now output
        (record p { last = some (updates (map name_and_version (parse_simulation output))) })
        (record_check save now p.store) found refl (record_check-Changed now p.store) h

  -- What a check that fails leaves: the error of the command as the status, or, where the command
  -- succeeded and the store could not be saved, the status of what was found.
  abbrev pub FailedAs : Result Text Text → HostPackageProvider → Type 0
  FailedAs (err m) p = status p ≡ ok (error m)
  FailedAs (ok output) p =
      status p ≡ ok (status_after (map name_and_version (parse_simulation output)))

  refused_store :
      (channel : Channel) (us : List PackageUpgrade) (now : Text) (p : HostPackageProvider)
      (x : UpdateStore × Result (Unit {0}) StoreError) (e : UpdateError)
      → Changed save (λ d. record d { last_check = some now }) p.store x
      → (check_saved save channel us p x).1 ≡ err e
      → (check_saved save channel us p x).0 ≡ p
  unfolding check_saved
  refused_store channel us now p x e (refused w bad) h = refl
  refused_store channel us now p x e (made good) h = cc

  -- A check that fails leaves the store as it was. The status is then the command's error; but where
  -- the command succeeded and only the store could not be saved, the status is that of a success.
  pub check_fails :
      (channel : Channel) (now : Text) (output : Result Text Text) (p : HostPackageProvider)
      (e : UpdateError)
      → (check save channel now output p).1 ≡ err e
      → ((check save channel now output p).0.store ≡ p.store)
        × FailedAs output (check save channel now output p).0
  unfolding check check_output status
  check_fails channel now (err m) p e h = (refl, refl)
  check_fails channel now (ok output) p e h =
      let us = parse_simulation output in
      let same =
        refused_store channel us now (record p { last = some (updates (map name_and_version us)) })
          (record_check save now p.store) e (record_check-Changed now p.store) h in
      (
        ap (λ (q : HostPackageProvider). q.store) same,
        ap (λ (q : HostPackageProvider). status q) same,
      )
