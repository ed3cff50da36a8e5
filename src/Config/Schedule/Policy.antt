-- ===== src/Config/Schedule/Policy.antt =====
-- The rules of the update policy, as docs/update.md states them.
use abora_framework.Common.{
  Bool-cases, leb, leb→le, ℕ, ◌≤◌, ◌<◌, ◌≡◌, ◌↔◌, arith, Bool, true, false, Option, none, some,
  Some, All-Some, Some-mono, Text, inl, inr, ◌⊎◌, ok, subst, sym, refl,
}
use abora_framework.Update.{Weekday, MaintenanceWindow, ask, always, never, RebootPolicy}
use abora_framework.Config.Settings.{Config}
use abora_framework.Config.Validate.{validate}
use abora_framework.Config.Validate.Windows.{IsWellFormed}
use abora_framework.Config.Validate.Complete.{validate_iff}
use abora_framework.Config.Schedule.{
  retry_after_failure, LocalTime, in_enforced_window, reboot_allowed, permissions, check_is_due,
}
use abora_framework.Config.Schedule.Windows.{Covers, in_window_iff}

-- Maintenance is enabled, the local time is known, and a window covers it.
pub record IsOpen (c : Config) (now : Option LocalTime) : Type 0 where
  pub enabled : c.maintenance.enabled ≡ true
  pub time : LocalTime
  pub time_is : now ≡ some time
  pub covered : Some (Covers time) c.maintenance.windows

enforced→IsOpen :
    (c : Config) (now : Option LocalTime) → in_enforced_window c now ≡ true → IsOpen c now
enforced→IsOpen c none h = cc
enforced→IsOpen c (some t) h = record {
  enabled = ground arith;
  time = t;
  time_is = refl;
  covered = (in_window_iff c.maintenance.windows t).0 (ground arith);
}

IsOpen→enforced :
    (c : Config) (now : Option LocalTime) → IsOpen c now → in_enforced_window c now ≡ true
IsOpen→enforced c now o =
    rw o.time_is (rw (o.enabled, (in_window_iff c.maintenance.windows o.time).1 o.covered))

reboot_allowed_iff :
    (policy : RebootPolicy) (in_win : Bool)
    → (reboot_allowed policy in_win ≡ true)
      ↔ ((policy ≡ always) ⊎ ((policy ≡ ask) × (in_win ≡ true)))
reboot_allowed_iff ask in_win = (λ h. inr (refl, h), λ h. ground arith)
reboot_allowed_iff always in_win = (λ h. inl refl, λ h. refl)
reboot_allowed_iff never in_win = (λ h. cc, λ h. ground arith)

-- The three permissions: a requested apply needs an open window, an automatic install also the
-- `automatic` switch, and a reboot an open window or the policy `always`, and never `never`.
pub permissions_iff :
    (c : Config) (now : Option LocalTime)
    → (((permissions c now).apply_permitted ≡ true) ↔ IsOpen c now)
      × (((permissions c now).installs_permitted ≡ true)
          ↔ ((c.updates.automatic ≡ true) × IsOpen c now))
      × (((permissions c now).reboot_permitted ≡ true)
          ↔ ((c.updates.reboot_policy ≡ always) ⊎ ((c.updates.reboot_policy ≡ ask) × IsOpen c now)))
unfolding permissions
permissions_iff c now = (
  (enforced→IsOpen c now, IsOpen→enforced c now),
  (
    λ h. (ground arith, enforced→IsOpen c now (ground arith)),
    λ (a, o). ground (arith, IsOpen→enforced c now o),
  ),
  (
    λ h. elim ((reboot_allowed_iff c.updates.reboot_policy (in_enforced_window c now)).0 h) [
      | inl e ↦ inl e
      | inr (e, w) ↦ inr (e, enforced→IsOpen c now w)
    ],
    λ h.
        (reboot_allowed_iff c.updates.reboot_policy (in_enforced_window c now)).1
          (elim h [ inl e ↦ inl e | inr (e, o) ↦ inr (e, IsOpen→enforced c now o) ]),
  ),
)

-- In a configuration that passed validation, and with maintenance enabled, each window opens on
-- each of its days: at some minute of that day a requested apply is permitted.
pub validated_window_opens :
    (is_socket_addr : Text → Bool) (c : Config) (w : MaintenanceWindow) (d : Weekday)
    → validate is_socket_addr c ≡ ok tt
    → c.maintenance.enabled ≡ true
    → Some (λ v. v ≡ w) c.maintenance.windows
    → Some (λ e. e ≡ d) w.days
    → (m : ℕ) × (m < 1440)
      × ((permissions c (some (record { weekday = d; minutes = m }))).apply_permitted ≡ true)
validated_window_opens is_socket_addr c w d valid on in_config in_week =
    let sound = (validate_iff is_socket_addr c).0 valid in
    let (v, formed, same) = All-Some IsWellFormed _ c.maintenance.windows sound.windows in_config in
    let form = subst IsWellFormed same formed in
    let now : LocalTime = record { weekday = d; minutes = form.start_minute } in
    let covers : Covers now w = record {
      start_minute = form.start_minute;
      end_minute = form.end_minute;
      day = in_week;
      start_is = form.start_is;
      end_is = form.end_is;
      started = omega arith;
      not_ended = form.ordered;
      within_day = form.within_day;
    } in
    let is_covered =
      Some-mono _ (Covers now) c.maintenance.windows (λ v' e. subst (Covers now) (sym e) covers)
        in_config in
    (
      form.start_minute,
      omega (arith, form.ordered, form.within_day),
      (permissions_iff c (some now)).0.1
          (record { enabled = on; time = now; time_is = refl; covered = is_covered }),
    )

-- After a successful check the next one is due exactly from the interval on; after a failed one
-- exactly from the interval or from fifteen minutes on, whichever is shorter.
pub check_is_due_iff :
    (since interval : ℕ)
    → ((check_is_due since true interval ≡ true) ↔ (interval ≤ since))
      × ((check_is_due since false interval ≡ true)
          ↔ ((interval ≤ since) ⊎ (retry_after_failure ≤ since)))
unfolding check_is_due
check_is_due_iff since interval = (
  (λ h. ground arith, λ h. ground arith),
  (
    λ h. elim (Bool-cases (leb interval since)) [
      | inl e ↦ inl (leb→le interval since e)
      | inr e ↦ inr (ground arith)
    ],
    λ h. elim h [ inl a ↦ ground arith | inr b ↦ ground arith ],
  ),
)
