-- ===== src/Config/Equality.antt =====
-- The derived `PartialEq` of the settings in crates/abora-config/src/lib.rs and crates/abora-update/src/lib.rs.
use abora_framework.Common.{
  ℕ, ◌≡◌, ◌↔◌, refl, ap, arith, Bool, true, false, ◌&&◌, ◌==◌, ==_iff, List, [], ◌∷◌, Option, none,
  some, text_eq, text_eq_iff,
}
use abora_framework.Log.{Level, Format, json, text, as_rank}
use abora_framework.Update.{
  Channel, stable, beta, nightly, custom, RebootPolicy, ask, always, never, weekday_eq,
  weekday_eq_iff, MaintenanceWindow,
}

module _ {A : Type 0} (eq : A → A → Bool) where
  -- The test decides equality.
  abbrev pub Decides : Type 0
  Decides = (a b : A) → (eq a b ≡ true) ↔ (a ≡ b)

  abbrev pub option_eq : Option A → Option A → Bool
  option_eq none none = true
  option_eq (some a) (some b) = eq a b
  option_eq none (some b) = false
  option_eq (some a) none = false

  abbrev pub list_eq : List A → List A → Bool
  list_eq [] [] = true
  list_eq (a ∷ as') (b ∷ bs) = eq a b && list_eq as' bs
  list_eq [] (b ∷ bs) = false
  list_eq (a ∷ as') [] = false

  pub option_eq_iff : Decides → (o p : Option A) → (option_eq o p ≡ true) ↔ (o ≡ p)
  option_eq_iff d none none = (λ h. refl, λ h. refl)
  option_eq_iff d (some a) (some b) =
      (λ h. ap some ((d a b).0 h), λ h. (d a b).1 (ground (arith, h)))
  option_eq_iff d none (some b) = (λ h. cc, λ h. cc)
  option_eq_iff d (some a) none = (λ h. cc, λ h. cc)

  pub list_eq_iff : Decides → (xs ys : List A) → (list_eq xs ys ≡ true) ↔ (xs ≡ ys)
  list_eq_iff d [] [] = (λ h. refl, λ h. refl)
  list_eq_iff d (a ∷ xs) (b ∷ ys) = (
    λ h. ground (arith, h, d a b, list_eq_iff d xs ys),
    λ h. ground (arith, h, d a b, list_eq_iff d xs ys),
  )
  list_eq_iff d [] (b ∷ ys) = (λ h. cc, λ h. cc)
  list_eq_iff d (a ∷ xs) [] = (λ h. cc, λ h. cc)

abbrev pub channel_eq : Channel → Channel → Bool
channel_eq stable stable = true
channel_eq beta beta = true
channel_eq nightly nightly = true
channel_eq (custom s) (custom t) = text_eq s t
channel_eq _ _ = false

pub channel_eq_iff : (a b : Channel) → (channel_eq a b ≡ true) ↔ (a ≡ b)
channel_eq_iff stable stable = (λ h. refl, λ h. refl)
channel_eq_iff stable beta = (λ h. cc, λ h. cc)
channel_eq_iff stable nightly = (λ h. cc, λ h. cc)
channel_eq_iff stable (custom t) = (λ h. cc, λ h. cc)
channel_eq_iff beta stable = (λ h. cc, λ h. cc)
channel_eq_iff beta beta = (λ h. refl, λ h. refl)
channel_eq_iff beta nightly = (λ h. cc, λ h. cc)
channel_eq_iff beta (custom t) = (λ h. cc, λ h. cc)
channel_eq_iff nightly stable = (λ h. cc, λ h. cc)
channel_eq_iff nightly beta = (λ h. cc, λ h. cc)
channel_eq_iff nightly nightly = (λ h. refl, λ h. refl)
channel_eq_iff nightly (custom t) = (λ h. cc, λ h. cc)
channel_eq_iff (custom s) stable = (λ h. cc, λ h. cc)
channel_eq_iff (custom s) beta = (λ h. cc, λ h. cc)
channel_eq_iff (custom s) nightly = (λ h. cc, λ h. cc)
channel_eq_iff (custom s) (custom t) =
    (λ h. ap custom ((text_eq_iff s t).0 h), λ h. (text_eq_iff s t).1 (ground (arith, h)))

abbrev policy_rank : RebootPolicy → ℕ
policy_rank ask = 0
policy_rank always = 1
policy_rank never = 2

abbrev pub policy_eq : RebootPolicy → RebootPolicy → Bool
policy_eq a b = policy_rank a == policy_rank b

pub policy_eq_iff : (a b : RebootPolicy) → (policy_eq a b ≡ true) ↔ (a ≡ b)
policy_eq_iff a b = (λ h. ground arith, λ h. ground arith)

abbrev format_rank : Format → ℕ
format_rank json = 0
format_rank text = 1

abbrev pub format_eq : Format → Format → Bool
format_eq a b = format_rank a == format_rank b

pub format_eq_iff : (a b : Format) → (format_eq a b ≡ true) ↔ (a ≡ b)
format_eq_iff a b = (λ h. ground arith, λ h. ground arith)

unfoldable pub level_eq : Level → Level → Bool
unfolding as_rank
level_eq a b = as_rank a == as_rank b

pub level_eq_iff : (a b : Level) → (level_eq a b ≡ true) ↔ (a ≡ b)
unfolding level_eq as_rank
level_eq_iff a b = (λ h. ground arith, λ h. ground arith)

abbrev pub window_eq : MaintenanceWindow → MaintenanceWindow → Bool
window_eq v w =
    list_eq weekday_eq v.days w.days
    && (text_eq v.start w.start
        && (text_eq v.end w.end && option_eq ◌==◌ v.max_duration_minutes w.max_duration_minutes))

pub window_eq_iff : (v w : MaintenanceWindow) → (window_eq v w ≡ true) ↔ (v ≡ w)
window_eq_iff v w = (
  λ h. ground (
    arith,
    h,
    list_eq_iff weekday_eq weekday_eq_iff v.days w.days,
    text_eq_iff v.start w.start,
    text_eq_iff v.end w.end,
    option_eq_iff ◌==◌ ==_iff v.max_duration_minutes w.max_duration_minutes,
  ),
  λ h. ground (
    arith,
    h,
    list_eq_iff weekday_eq weekday_eq_iff v.days w.days,
    text_eq_iff v.start w.start,
    text_eq_iff v.end w.end,
    option_eq_iff ◌==◌ ==_iff v.max_duration_minutes w.max_duration_minutes,
  ),
)
