-- ===== src/Update/Host/Provider/Reboots.antt =====
-- The reboot marker: what HostPackageProvider of crates/abora-update/src/host.rs reports and remembers.
use abora_framework.Common.{
  ◌≡◌, refl, sym, ap, ◌∙◌, Bool, true, false, Result, ok, ok-injective, Text, length, ltb,
  Bool-cases, if_elim, ◌⊎◌, inl, inr,
}
use abora_framework.Update.{RebootStatus}
use abora_framework.Update.Store.{
  StoreData, StoreError, UpdateStore, max_history, no_reboot, trim_history, set_reboot,
}
use abora_framework.Update.Store.Changes.{Changed, made, refused, change-Changed}
use abora_framework.Update.Host.Provider.{
  UpdateError, HostPackageProvider, first_seen, noted, cleared, reboot_required,
}

abbrev Reported : Type 0
Reported = HostPackageProvider × Result RebootStatus UpdateError

trim_history-reboot : (d : StoreData) → (trim_history d).reboot ≡ d.reboot
unfolding trim_history
trim_history-reboot d = elim (Bool-cases (ltb max_history (length d.history))) [
  | inl e ↦ rw e refl
  | inr e ↦ rw e refl
]

module _ (save : Text → StoreData → Result (Unit {0}) StoreError) where
  -- The store remembers this status, and the provider reports it.
  pub record IsReport (marker : Bool) (p : HostPackageProvider) (r : RebootStatus) : Type 0 where
    pub agrees : r.required ≡ marker
    pub remembered : p.store.data'.reboot.required ≡ marker
    pub same : (marker ≡ false) ⊎ (p.store.data'.reboot ≡ r)

  noted-IsReport :
      (p : HostPackageProvider) (first : RebootStatus)
      (x : UpdateStore × Result (Unit {0}) StoreError) (r : RebootStatus)
      → first.required ≡ true
      → Changed save (λ d. record d { reboot = first }) p.store x
      → (noted save p first x).1 ≡ ok r
      → IsReport true (noted save p first x).0 r
  noted-IsReport p first x r q (refused e bad) h = cc
  noted-IsReport p first x r q (made good) h =
      let is : first ≡ r = ok-injective h in
      let stored = trim_history-reboot (record p.store.data' { reboot = first }) in
      record {
        agrees = ap (λ (s : RebootStatus). s.required) (sym is) ∙ q;
        remembered = ap (λ (s : RebootStatus). s.required) stored ∙ q;
        same = inr (stored ∙ is);
      }

  cleared-IsReport :
      (p : HostPackageProvider) (x : UpdateStore × Result (Unit {0}) StoreError) (r : RebootStatus)
      → Changed save (λ d. record d { reboot = no_reboot }) p.store x
      → (cleared save p x).1 ≡ ok r
      → IsReport false (cleared save p x).0 r
  cleared-IsReport p x r (refused e bad) h = cc
  cleared-IsReport p x r (made good) h =
      let is : no_reboot ≡ r = ok-injective h in
      let stored = trim_history-reboot (record p.store.data' { reboot = no_reboot }) in
      record {
        agrees = ap (λ (s : RebootStatus). s.required) (sym is);
        remembered = ap (λ (s : RebootStatus). s.required) stored;
        same = inl refl;
      }

  set_reboot-Changed :
      (status : RebootStatus) (s : UpdateStore)
      → Changed save (λ d. record d { reboot = status }) s (set_reboot save status s)
  unfolding set_reboot
  set_reboot-Changed status s = change-Changed save (λ d. record d { reboot = status }) s

  -- A report says that a reboot is required exactly when the marker exists, and the store says the
  -- same; where one is required, the store remembers the very report.
  pub reboot_required-IsReport :
      (marker : Bool) (packages : Result Text Text) (now : Text) (p : HostPackageProvider)
      (r : RebootStatus)
      → (reboot_required save marker packages now p).1 ≡ ok r
      → IsReport marker (reboot_required save marker packages now p).0 r
  unfolding reboot_required
  reboot_required-IsReport true packages now p r h =
      if_elim (λ (x : Reported). x.1 ≡ ok r → IsReport true x.0 r) p.store.data'.reboot.required
        (p, ok p.store.data'.reboot) _ known
        (λ _.
          noted-IsReport p (first_seen packages now)
            (set_reboot save (first_seen packages now) p.store) r refl
            (set_reboot-Changed (first_seen packages now) p.store))
        h
    where
      known :
          p.store.data'.reboot.required ≡ true
          → ◌≡◌ {A = Result RebootStatus UpdateError} (ok p.store.data'.reboot) (ok r)
          → IsReport true p r
      known e k =
          let is : p.store.data'.reboot ≡ r = ok-injective k in
          record {
            agrees = ap (λ (s : RebootStatus). s.required) (sym is) ∙ e;
            remembered = e;
            same = inr is;
          }
  reboot_required-IsReport false packages now p r h =
      if_elim (λ (x : Reported). x.1 ≡ ok r → IsReport false x.0 r) p.store.data'.reboot.required _
        (p, ok no_reboot)
        (λ _.
          cleared-IsReport p (set_reboot save no_reboot p.store) r
            (set_reboot-Changed no_reboot p.store))
        calm h
    where
      calm :
          p.store.data'.reboot.required ≡ false
          → ◌≡◌ {A = Result RebootStatus UpdateError} (ok no_reboot) (ok r)
          → IsReport false p r
      calm e k =
          let is : no_reboot ≡ r = ok-injective k in
          record {
            agrees = ap (λ (s : RebootStatus). s.required) (sym is);
            remembered = e;
            same = inl refl;
          }

  -- As long as the marker stays, a later report repeats the first one, whatever the clock and the list
  -- of packages say then: the time since which a reboot is pending does not move.
  pub reboot_required-again :
      (packages later : Result Text Text) (now then_ : Text) (p : HostPackageProvider)
      (r : RebootStatus)
      → (reboot_required save true packages now p).1 ≡ ok r
      → reboot_required save true later then_ (reboot_required save true packages now p).0
        ≡ ((reboot_required save true packages now p).0, ok r)
  reboot_required-again packages later now then_ p r h =
      repeat (reboot_required save true packages now p).0
        (reboot_required-IsReport true packages now p r h)
    where
      remembered_is :
          (q : HostPackageProvider)
          → (◌≡◌ {A = Bool} true false) ⊎ (q.store.data'.reboot ≡ r)
          → q.store.data'.reboot ≡ r
      remembered_is q (inl e) = cc
      remembered_is q (inr e) = e

      repeat :
          (q : HostPackageProvider)
          → IsReport true q r
          → reboot_required save true later then_ q ≡ (q, ok r)
      repeat q report =
          unfold reboot_required in
          if_elim (λ (x : Reported). x ≡ (q, ok r)) q.store.data'.reboot.required
            (q, ok q.store.data'.reboot) _ (λ _. ap (λ s. (q, ok s)) (remembered_is q report.same))
            (λ e. cc)
