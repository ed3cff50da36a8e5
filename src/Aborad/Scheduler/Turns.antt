-- ===== src/Aborad/Scheduler/Turns.antt =====
-- What one turn of services/aborad/src/scheduler.rs requests, and what stays true from turn to turn.
use abora_framework.Common.{
  ℕ, ◌-◌, ◌≤◌, ◌≡◌, ◌≢◌, refl, sym, ap, subst, arith, Bool, true, false, not, List, [], All, Option,
  none, some, Result, Text, is_empty, if_elim,
}
use abora_framework.Config.Schedule.{Permissions, permissions, check_interval, should_auto_apply}
use abora_framework.Config.Schedule.Policy.{IsOpen, permissions_iff}
use abora_framework.Update.Apply.{ApplyRequest, ApplyResult}
use abora_framework.Update.Host.Provider.Checks.{HasValidName}
use abora_framework.Update.Store.{StoreData, StoreError}
use abora_framework.Aborad.State.{requested_packages, request_apply}
use abora_framework.Aborad.State.Results.{ingest_apply_result-All}
use abora_framework.Aborad.Updates.Reports.{refresh-HasValidName}
use abora_framework.Aborad.State.Requests.{request_apply_iff}
use abora_framework.Aborad.Updates.{Updates, set_schedule}
use abora_framework.Aborad.Scheduler.{
  Schedule, Turn, since, due, info_of, caller, take_up, check_if_due, apply_if_permitted, turn,
}

-- Some time ago, or never.
abbrev pub IsSpaced : ℕ → ℕ → Option ℕ → Type 0
IsSpaced interval now none = Unit
IsSpaced interval now (some t) = interval ≤ now - t

auto_apply_parts :
    (perms : Permissions) (available pending : Bool) (now interval : ℕ) (last : Option ℕ)
    → should_auto_apply perms available pending (since now last) interval ≡ true
    → (perms.installs_permitted ≡ true) × (pending ≡ false) × IsSpaced interval now last
unfolding should_auto_apply
auto_apply_parts perms available pending now interval none h =
    (ground (arith, h), ground (arith, h), tt)
auto_apply_parts perms available pending now interval (some t) h =
    (ground (arith, h), ground (arith, h), ground (arith, h))

module _ (save : Text → StoreData → Result (Unit {0}) StoreError)
    (from_slice : List ℕ → Option ApplyResult) (write : ApplyRequest → Result (Unit {0}) Text) where
  -- An automatic request: automatic installs are configured, the maintenance window is open when the
  -- turn begins and when the request is written, no request waits, the last automatic attempt lies at
  -- least one check interval back, and this attempt is noted. The request is the scheduler's, under
  -- the new id, for some package, and names what the last check found.
  pub record IsAutomatic (t : Turn) (s next : Schedule) (u : Updates) (r : ApplyRequest)
      : Type 0 where
    pub automatic : t.config.updates.automatic ≡ true
    pub is_open : IsOpen t.config t.local_time
    pub still_open : IsOpen t.config t.apply_time
    pub idle : t.pending ≡ false
    pub still_idle : t.pending_again ≡ false
    pub spaced : IsSpaced (check_interval t.config) t.auto_at s.last_auto_attempt
    pub noted : next.last_auto_attempt ≡ some t.auto_attempt_at
    pub id_is : r.id ≡ t.id
    pub by_scheduler : r.requested_by ≡ caller
    pub some_package : r.packages ≢ []
    pub packages_are : r.packages ≡ requested_packages u.state.available

  apply-IsAutomatic :
      (t : Turn) (s : Schedule) (u : Updates) (r : ApplyRequest)
      → (apply_if_permitted save from_slice write t (permissions t.config t.local_time) (s, u)).2
        ≡ some r
      → IsAutomatic t s
          (apply_if_permitted save from_slice write t (permissions t.config t.local_time) (s, u)).0
          (apply_if_permitted save from_slice write t (permissions t.config t.local_time) (s, u)).1
          r
  unfolding apply_if_permitted
  apply-IsAutomatic t s u r h =
      if_elim
        (λ (x : Schedule × Updates × Option ApplyRequest). x.2 ≡ some r → IsAutomatic t s x.0 x.1 r)
        (should_auto_apply (permissions t.config t.local_time) (not (is_empty u.state.available))
          t.pending (since t.auto_at s.last_auto_attempt) (check_interval t.config))
        _ (s, u, none) requested (λ _ k. cc) h
    where
      requested :
          should_auto_apply
              (permissions t.config t.local_time)
              (not (is_empty u.state.available))
              t.pending
              (since t.auto_at s.last_auto_attempt)
              (check_interval t.config)
            ≡ true
          → (request_apply write u.state t.config caller false t.pending_again t.apply_time t.id
              t.now).1
            ≡ some r
          → IsAutomatic t s (record s { last_auto_attempt = some t.auto_attempt_at }) u r
      requested permitted k =
          let (installs, idle, spaced) =
            auto_apply_parts (permissions t.config t.local_time) (not (is_empty u.state.available))
              t.pending t.auto_at (check_interval t.config) s.last_auto_attempt permitted in
          let (automatic, is_open) = (permissions_iff t.config t.local_time).1.0 installs in
          let (_, possible, _, is) =
            (request_apply_iff write u.state t.config caller t.pending_again t.apply_time t.id t.now
                false r).0
              k in
          record {
            automatic = automatic;
            is_open = is_open;
            still_open = possible.is_open;
            idle = idle;
            still_idle = possible.idle;
            spaced = spaced;
            noted = refl;
            id_is = ap (λ (q : ApplyRequest). q.id) is;
            by_scheduler = ap (λ (q : ApplyRequest). q.requested_by) is;
            some_package = rw is possible.some_package;
            packages_are = ap (λ (q : ApplyRequest). q.packages) is;
          }

  take_up-HasValidName :
      (t : Turn) (s : Schedule) (u : Updates)
      → All HasValidName u.state.available
      → All HasValidName (take_up save from_slice write t s u).1.state.available
  unfolding take_up
  take_up-HasValidName t s u h =
      ingest_apply_result-All save t.config.updates.channel HasValidName from_slice t.result_node
        u.state h

  check_if_due-HasValidName :
      (t : Turn) (s : Schedule) (u : Updates)
      → All HasValidName u.state.available
      → All HasValidName (check_if_due save from_slice write t (s, u)).1.state.available
  unfolding check_if_due
  check_if_due-HasValidName t s u h =
      if_elim (λ (x : Schedule × Updates). All HasValidName x.1.state.available)
        (due t.due_at s.last_ok (check_interval t.config) s.last_attempt) _ (s, u)
        (λ _. refresh-HasValidName save t.config.updates.channel t.checked_at t.output u h) (λ _. h)

  apply-available :
      (t : Turn) (perms : Permissions) (s : Schedule) (u : Updates)
      → (apply_if_permitted save from_slice write t perms (s, u)).1 ≡ u
  unfolding apply_if_permitted
  apply-available t perms s u =
      if_elim (λ (x : Schedule × Updates × Option ApplyRequest). x.1 ≡ u)
        (should_auto_apply perms (not (is_empty u.state.available)) t.pending
          (since t.auto_at s.last_auto_attempt) (check_interval t.config))
        _ (s, u, none) (λ _. refl) (λ _. refl)

  kept-last_auto_attempt :
      (t : Turn) (s : Schedule) (u : Updates)
      → (check_if_due save from_slice write t (s, u)).0.last_auto_attempt ≡ s.last_auto_attempt
  unfolding check_if_due
  kept-last_auto_attempt t s u =
      if_elim (λ (x : Schedule × Updates). x.0.last_auto_attempt ≡ s.last_auto_attempt)
        (due t.due_at s.last_ok (check_interval t.config) s.last_attempt) _ (s, u) (λ _. refl)
        (λ _. refl)

  -- A turn that writes a request does so automatically and lawfully: automatic installs are
  -- configured, the maintenance window is open at the turn's beginning and when the request is
  -- written, no request waits, the last automatic attempt lies at least one check interval back, and
  -- this attempt is noted for the next turns. The request is the scheduler's, has the new id, names
  -- some package, and names what the last check found.
  pub turn-IsAutomatic :
      (t : Turn) (s : Schedule) (u : Updates) (r : ApplyRequest)
      → (turn save from_slice write t s u).2 ≡ some r
      → IsAutomatic t s (turn save from_slice write t s u).0 (turn save from_slice write t s u).1 r
  unfolding turn take_up
  turn-IsAutomatic t s u r h =
      let perms = permissions t.config t.local_time in
      let begun =
        take_up save from_slice write t (record s { previous = some perms })
          (set_schedule (info_of (check_interval t.config) perms) u) in
      let checked = check_if_due save from_slice write t begun in
      let done = apply-IsAutomatic t checked.0 checked.1 r h in
      record {
        automatic = done.automatic;
        is_open = done.is_open;
        still_open = done.still_open;
        idle = done.idle;
        still_idle = done.still_idle;
        spaced =
            subst (IsSpaced (check_interval t.config) t.auto_at)
              (kept-last_auto_attempt t begun.0 begun.1) done.spaced;
        noted = done.noted;
        id_is = done.id_is;
        by_scheduler = done.by_scheduler;
        some_package = done.some_package;
        packages_are = done.packages_are;
      }

  -- Where every update that is listed has the name of a package, that is so after a turn, whatever
  -- the helper's result file and apt-get say.
  pub turn-HasValidName :
      (t : Turn) (s : Schedule) (u : Updates)
      → All HasValidName u.state.available
      → All HasValidName (turn save from_slice write t s u).1.state.available
  unfolding turn set_schedule
  turn-HasValidName t s u h =
      let perms = permissions t.config t.local_time in
      let begun =
        take_up save from_slice write t (record s { previous = some perms })
          (set_schedule (info_of (check_interval t.config) perms) u) in
      let checked = check_if_due save from_slice write t begun in
      subst (λ (v : Updates). All HasValidName v.state.available)
        (sym (apply-available t perms checked.0 checked.1))
        (check_if_due-HasValidName t begun.0 begun.1 (
          take_up-HasValidName t (record s { previous = some perms })
            (set_schedule (info_of (check_interval t.config) perms) u) h))
