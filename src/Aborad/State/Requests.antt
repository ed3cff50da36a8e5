-- ===== src/Aborad/State/Requests.antt =====
-- When the daemon asks the helper for an apply, and what it asks for.
use abora_framework.Common.{
  ◌≤◌, ◌≡◌, ◌≢◌, ◌↔◌, refl, ap, sym, ◌∙◌, arith, Bool, true, false, List, [], ◌∷◌, Option, none,
  some, Result, ok, err, Text, All, length,
}
use abora_framework.Config.Settings.{Config}
use abora_framework.Config.Schedule.{LocalTime, permissions}
use abora_framework.Config.Schedule.Policy.{IsOpen, permissions_iff}
use abora_framework.Update.{AvailableUpdate}
use abora_framework.Update.Host.{valid_package_name}
use abora_framework.Update.Apply.{ApplyRequest, max_packages, valid_request_id, validate_request}
use abora_framework.Update.Apply.Requests.{validate_request_iff}
use abora_framework.Aborad.State.{
  UpdatesState, ApplyResponse, ApplyRefusal, requested_packages, block_of, is_none, written,
  unblocked, request_apply,
}
use abora_framework.Aborad.State.Packages.{length-requested_packages, All-requested_packages}

block_of_iff :
    (pending : Bool) (packages : List Text) (permitted : Bool)
    → (block_of pending packages permitted ≡ none)
      ↔ ((pending ≡ false) × (packages ≢ []) × (permitted ≡ true))
unfolding block_of
block_of_iff pending [] permitted = (λ h. absurd (ground arith), λ (p, q, r). absurd (q refl))
block_of_iff pending (x ∷ xs) permitted =
    (λ h. (ground arith, λ e. cc, ground arith), λ (p, q, r). rw (p, r) refl)

is_none_iff : (o : Option Text) → (is_none o ≡ true) ↔ (o ≡ none)
is_none_iff none = (λ h. refl, λ h. refl)
is_none_iff (some reason) = (λ h. cc, λ h. cc)

abbrev permitted_of : Result ApplyResponse ApplyRefusal → Bool
permitted_of (ok response) = response.permitted
permitted_of (err e) = false

written-eq-some :
    (request : ApplyRequest) (w : Result (Unit {0}) Text) (r : ApplyRequest)
    → (written request w).1 ≡ some r
    → (w ≡ ok tt) × (r ≡ request)
unfolding written
written-eq-some request (ok _) r h = (refl, cc)
written-eq-some request (err e) r h = cc

module _ (write : ApplyRequest → Result (Unit {0}) Text) (s : UpdatesState) (config : Config)
    (caller : Text) (pending : Bool) (time : Option LocalTime) (id now : Text) where
  -- The request that would be written.
  abbrev pub the_request : ApplyRequest
  the_request = record {
    id = id;
    requested_at = now;
    requested_by = caller;
    packages = requested_packages s.available;
  }

  -- No request is waiting, something is to be applied, and the maintenance window is open.
  pub record IsPossible : Type 0 where
    pub idle : pending ≡ false
    pub some_package : requested_packages s.available ≢ []
    pub is_open : IsOpen config time

  block : Option Text
  block =
      block_of pending (requested_packages s.available) (permissions config time).apply_permitted

  block-IsPossible : (block ≡ none) ↔ IsPossible
  unfolding block
  block-IsPossible =
      let (f, g) =
        block_of_iff pending (requested_packages s.available)
          (permissions config time).apply_permitted in
      let (permitted, opened) = (permissions_iff config time).0 in
      (
        λ h. let (p, q, r) = f h in record { idle = p; some_package = q; is_open = permitted r },
        λ k. g (k.idle, k.some_package, opened k.is_open),
      )

  unblocked-eq-some :
      (o : Option Text) (r : ApplyRequest)
      → (unblocked write the_request o).1 ≡ some r
      → (o ≡ none) × (write the_request ≡ ok tt) × (r ≡ the_request)
  unfolding unblocked
  unblocked-eq-some (some reason) r h = cc
  unblocked-eq-some none r h =
      let (w, is) = written-eq-some the_request (write the_request) r h in (refl, w, is)

  -- A request is written exactly when it is not a dry run, an apply is possible, and the file can be
  -- written; it names the caller and the packages of the last check.
  pub request_apply_iff :
      (dry_run : Bool) (r : ApplyRequest)
      → ((request_apply write s config caller dry_run pending time id now).1 ≡ some r)
        ↔ ((dry_run ≡ false) × IsPossible × (write the_request ≡ ok tt) × (r ≡ the_request))
  unfolding request_apply block unblocked written
  request_apply_iff true r = (λ h. cc, λ (d, _, _, _). cc)
  request_apply_iff false r = (
    λ h. let (free, w, is) = unblocked-eq-some block r h in (refl, block-IsPossible.0 free, w, is),
    λ (d, k, w, is). rw (block-IsPossible.1 k, w, is) refl,
  )

  -- A dry run answers that an apply is permitted exactly when one is possible.
  pub request_apply_dry :
      (response : ApplyResponse)
      → (request_apply write s config caller true pending time id now).0 ≡ ok response
      → (response.permitted ≡ true) ↔ IsPossible
  unfolding request_apply block
  request_apply_dry response h =
      let same : is_none block ≡ response.permitted = ap permitted_of h in
      let (f, g) = block-IsPossible in
      let (f', g') = is_none_iff block in (λ k. f (f' (same ∙ k)), λ k. sym same ∙ g' (g k))

  -- The helper accepts whatever the daemon writes, where the components of the last check have
  -- acceptable names and are at most 2000, and the new id is valid.
  pub request_apply-IsValid :
      (dry_run : Bool) (r : ApplyRequest)
      → valid_request_id id ≡ true
      → All (λ (u : AvailableUpdate). valid_package_name u.component ≡ true) s.available
      → length s.available ≤ max_packages
      → (request_apply write s config caller dry_run pending time id now).1 ≡ some r
      → validate_request r ≡ ok tt
  request_apply-IsValid dry_run r i names few h =
      let (_, possible, _, is) = (request_apply_iff dry_run r).0 h in
      rw is (
        (validate_request_iff the_request).1 (record {
          id_valid = i;
          some_package = possible.some_package;
          few_packages = omega (arith, length-requested_packages s.available);
          names_valid = All-requested_packages _ s.available names;
        }))
