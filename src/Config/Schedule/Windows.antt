-- ===== src/Config/Schedule/Windows.antt =====
-- What it is to be inside a maintenance window.
use abora_framework.Common.{
  ℕ, ◌≤◌, ◌<◌, ◌≡◌, ◌↔◌, arith, true, List, Result-cases, inl, inr, Some, any→Some, Some→any,
}
use abora_framework.Update.{MaintenanceWindow, weekday_eq, weekday_eq_iff}
use abora_framework.Config.Clock.{parse_clock}
use abora_framework.Config.Clock.Exact.{clock_text, parse_clock_iff}
use abora_framework.Config.Schedule.{LocalTime, in_one_window, in_window}

-- The window's texts are the clocks of two minutes of the day, and the time lies between them, the
-- first included and the second not, on one of the window's days.
pub record Covers (now : LocalTime) (w : MaintenanceWindow) : Type 0 where
  pub start_minute : ℕ
  pub end_minute : ℕ
  pub day : Some (λ d. d ≡ now.weekday) w.days
  pub start_is : w.start ≡ clock_text start_minute
  pub end_is : w.end ≡ clock_text end_minute
  pub started : start_minute ≤ now.minutes
  pub not_ended : now.minutes < end_minute
  pub within_day : end_minute < 1440

in_one_window→Covers :
    (now : LocalTime) (w : MaintenanceWindow) → in_one_window now w ≡ true → Covers now w
unfolding in_one_window
in_one_window→Covers now w h = elim (Result-cases (parse_clock w.start)) [
  | inr (e, p) ↦ cc (rw (p, in_one_window) at h)
  | inl (start, p) ↦ elim (Result-cases (parse_clock w.end)) [
    | inr (e, q) ↦ cc (rw (p, q, in_one_window) at h)
    | inl (end, q) ↦
        let (_, start_is) = (parse_clock_iff w.start start).0 p in
        let (in_day, end_is) = (parse_clock_iff w.end end).0 q in
        let holds = rw (p, q, in_one_window) at h in
        record {
          start_minute = start;
          end_minute = end;
          day =
              any→Some _ (λ d. weekday_eq d now.weekday) w.days
                (λ d. (weekday_eq_iff d now.weekday).0) (ground arith);
          start_is = start_is;
          end_is = end_is;
          started = ground arith;
          not_ended = ground arith;
          within_day = in_day;
        }
  ]
]

Covers→in_one_window :
    (now : LocalTime) (w : MaintenanceWindow) → Covers now w → in_one_window now w ≡ true
unfolding in_one_window
Covers→in_one_window now w c =
    let p = (parse_clock_iff w.start c.start_minute).1 (omega arith, c.start_is) in
    let q = (parse_clock_iff w.end c.end_minute).1 (c.within_day, c.end_is) in
    let day =
      Some→any _ (λ d. weekday_eq d now.weekday) w.days (λ d. (weekday_eq_iff d now.weekday).1)
        c.day in
    rw (p, q, day, in_one_window) (ground arith)

-- `in_window` answers yes exactly when one of the windows covers the time.
pub in_window_iff :
    (windows : List MaintenanceWindow) (now : LocalTime)
    → (in_window windows now ≡ true) ↔ Some (Covers now) windows
unfolding in_window
in_window_iff windows now = (
  any→Some _ (in_one_window now) windows (in_one_window→Covers now),
  Some→any _ (in_one_window now) windows (Covers→in_one_window now),
)
