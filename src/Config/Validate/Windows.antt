-- ===== src/Config/Validate/Windows.antt =====
-- Which maintenance windows pass validation.
use abora_framework.Common.{
  ℕ, suc, zero, ◌<◌, ◌≡◌, ◌≢◌, ◌↔◌, refl, arith, Bool, true, false, List, [], ◌∷◌, ◌++◌, Option,
  none, some, ok, Result-cases, All, is_empty, inl, inr, leb,
}
use abora_framework.Update.{MaintenanceWindow}
use abora_framework.Config.Clock.{parse_clock}
use abora_framework.Config.Clock.Exact.{clock_text, parse_clock_iff}
use abora_framework.Config.Validate.{
  Problem, push_if, is_zero_max, window_problems, validate_windows,
}

-- A window that may be used: it has a day, its two texts are `HH:MM` of minutes of one day, the
-- first of them earlier, and a limit on a run is not zero.
pub record IsWellFormed (w : MaintenanceWindow) : Type 0 where
  pub start_minute : ℕ
  pub end_minute : ℕ
  pub has_day : w.days ≢ []
  pub start_is : w.start ≡ clock_text start_minute
  pub end_is : w.end ≡ clock_text end_minute
  pub ordered : start_minute < end_minute
  pub within_day : end_minute < 1440
  pub max_positive : w.max_duration_minutes ≢ some 0

pub append-eq-nil {ℓ} : {A : Type ℓ} (xs ys : List A) → xs ++ ys ≡ [] → (xs ≡ []) × (ys ≡ [])
append-eq-nil [] ys h = (refl, h)
append-eq-nil (x ∷ xs) ys h = cc

pub append_of_nil {ℓ} : {A : Type ℓ} {xs ys : List A} → xs ≡ [] → ys ≡ [] → xs ++ ys ≡ []
append_of_nil p q = cc (p, q)

pub push_if-eq-nil : (b : Bool) (p : Problem) → push_if b p ≡ [] → b ≡ false
push_if-eq-nil true p h = cc
push_if-eq-nil false p h = refl

is_empty-false {ℓ} : {A : Type ℓ} (xs : List A) → is_empty xs ≡ false → xs ≢ []
is_empty-false [] h = cc
is_empty-false (x ∷ xs) h = λ e. cc

ne-nil-is_empty {ℓ} : {A : Type ℓ} (xs : List A) → xs ≢ [] → is_empty xs ≡ false
ne-nil-is_empty [] h = absurd (h refl)
ne-nil-is_empty (x ∷ xs) h = refl

IsWellFormed-clocks :
    (i start end : ℕ) (w : MaintenanceWindow)
    → is_empty w.days ≡ false
    → parse_clock w.start ≡ ok start
    → parse_clock w.end ≡ ok end
    → push_if (leb end start) (Problem.ends_early i w.end w.start)
        ++ push_if (is_zero_max w.max_duration_minutes) (Problem.zero_max_duration i)
      ≡ []
    → IsWellFormed w
IsWellFormed-clocks i start end w d p q h =
    let (order, max) = append-eq-nil (push_if (leb end start) _) _ h in
    let later = push_if-eq-nil (leb end start) _ order in
    let (_, is_start) = (parse_clock_iff w.start start).0 p in
    let (in_day, is_end) = (parse_clock_iff w.end end).0 q in
    let positive = push_if-eq-nil (is_zero_max w.max_duration_minutes) _ max in
    record {
      start_minute = start;
      end_minute = end;
      has_day = is_empty-false w.days d;
      start_is = is_start;
      end_is = is_end;
      ordered = ground arith;
      within_day = in_day;
      max_positive = λ e. cc (rw e at positive);
    }

window_problems→IsWellFormed :
    (i : ℕ) (w : MaintenanceWindow) → window_problems i w ≡ [] → IsWellFormed w
unfolding window_problems
window_problems→IsWellFormed i w h =
    let (days, clocks) = append-eq-nil (push_if (is_empty w.days) _) _ h in
    let d = push_if-eq-nil (is_empty w.days) _ days in
    elim (Result-cases (parse_clock w.start)) [
      | inr (e, p) ↦ cc (rw p at clocks)
      | inl (start, p) ↦ elim (Result-cases (parse_clock w.end)) [
        | inr (e, q) ↦ cc (rw (p, q) at clocks)
        | inl (end, q) ↦ IsWellFormed-clocks i start end w d p q (rw (p, q) at clocks)
      ]
    ]

positive_max : (o : Option ℕ) → o ≢ some 0 → is_zero_max o ≡ false
positive_max none h = refl
positive_max (some zero) h = absurd (h refl)
positive_max (some (suc n)) h = ground arith

IsWellFormed→window_problems :
    (i : ℕ) (w : MaintenanceWindow) → IsWellFormed w → window_problems i w ≡ []
unfolding window_problems
IsWellFormed→window_problems i w f =
    let p = (parse_clock_iff w.start f.start_minute).1 (omega arith, f.start_is) in
    let q = (parse_clock_iff w.end f.end_minute).1 (f.within_day, f.end_is) in
    rw (ne-nil-is_empty w.days f.has_day)
      (rw p (rw q (rw (positive_max w.max_duration_minutes f.max_positive) (ground arith))))

-- The windows pass exactly when each is well-formed.
pub validate_windows_iff :
    (i : ℕ) (ws : List MaintenanceWindow) → (validate_windows i ws ≡ []) ↔ All IsWellFormed ws
unfolding validate_windows
validate_windows_iff i [] = (λ _. tt, λ _. refl)
validate_windows_iff i (w ∷ ws) = (
  λ h.
      let (first, rest) = append-eq-nil (window_problems i w) _ h in
      (window_problems→IsWellFormed i w first, (validate_windows_iff (suc i) ws).0 rest),
  λ (f, fs). rw (IsWellFormed→window_problems i w f) ((validate_windows_iff (suc i) ws).1 fs),
)
