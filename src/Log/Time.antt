-- ===== src/Log/Time.antt =====
-- `utc_rfc3339_millis` and `civil_from_days` of crates/abora-log/src/lib.rs, for times from 1970 on
-- whose seconds are below 2^63, where no number is negative and nothing wraps. A time is its
-- nanoseconds.
use abora_framework.Common.{
  ℕ, zero, suc, true, false, ◌&&◌, ◌==◌, &&-eq-true, ==_iff, Bool-cases, inl, inr, subst, sym, ◌+◌,
  ◌*◌, ◌-◌, ◌/◌, ◌%◌, ◌≤◌, ◌<◌, ◌≡◌, refl, arith, Text, codes, ◌++◌, ltb, leb, if◌then◌else◌, Bool,
  List, [], ◌∷◌, length,
}
use abora_framework.Common.Decimal.{show}

-- the year of an era of 400 years, which begins on March 1, of the day `doe` of that era
abbrev year_of_era : ℕ → ℕ
year_of_era doe = (doe - doe / 1460 + doe / 36524 - doe / 146096) / 365

abbrev day_of_year : ℕ → ℕ → ℕ
day_of_year doe yoe = doe - (365 * yoe + yoe / 4 - yoe / 100)

abbrev month_of : ℕ → ℕ
month_of mp = if ltb mp 10 then mp + 3 else mp - 9

abbrev year_after : ℕ → ℕ → ℕ
year_after m y = if leb m 2 then y + 1 else y

-- the year and the day of the year, both from March on, as year, month and day
civil_of : ℕ → ℕ → ℕ × ℕ × ℕ
civil_of y doy =
    let mp = (5 * doy + 2) / 153 in
    let m = month_of mp in (year_after m y, m, doy - (153 * mp + 2) / 5 + 1)

unfoldable pub civil_from_days : ℕ → ℕ × ℕ × ℕ
unfolding civil_of
civil_from_days days =
    let z = days + 719468 in
    let era = z / 146097 in
    let doe = z - era * 146097 in
    let yoe = year_of_era doe in civil_of (yoe + era * 400) (day_of_year doe yoe)

zeros : ℕ → Text
zeros zero = []
zeros (suc n) = b'0' ∷ zeros n

-- `{n:0w}`
padded : ℕ → ℕ → Text
unfolding zeros
padded w n = let s = show n in zeros (w - length s) ++ s

unfoldable pub utc_rfc3339_millis : ℕ → Text
unfolding padded
utc_rfc3339_millis epoch =
    let secs = epoch / 1000000000 in
    let millis = epoch % 1000000000 / 1000000 in
    let day_secs = secs % 86400 in
    let (year, month, day) = civil_from_days (secs / 86400) in
    padded 4 year
    ++ (codes "-"
        ++ (padded 2 month
            ++ (codes "-"
                ++ (padded 2 day
                    ++ (codes "T"
                        ++ (padded 2 (day_secs / 3600)
                            ++ (codes ":"
                                ++ (padded 2 (day_secs % 3600 / 60)
                                    ++ (codes ":"
                                        ++ (padded 2 (day_secs % 60)
                                            ++ (codes "."
                                                ++ (padded 3 millis ++ codes "Z"))))))))))))

abbrev nth : List ℕ → ℕ → ℕ
nth [] n = 0
nth (x ∷ xs) zero = x
nth (x ∷ xs) (suc n) = nth xs n

-- the days before a month of a common year, and before the year after it
abbrev pub days_before : ℕ → ℕ
days_before m =
    nth (0 ∷ 0 ∷ 31 ∷ 59 ∷ 90 ∷ 120 ∷ 151 ∷ 181 ∷ 212 ∷ 243 ∷ 273 ∷ 304 ∷ 334 ∷ 365 ∷ []) m

-- the leap days before a year: one in each year that 4 divides, but 100 only with 400
abbrev pub leap_days : ℕ → ℕ
leap_days y = (y + 3) / 4 - (y + 99) / 100 + (y + 399) / 400

-- A date of the calendar, which is so many days after January 1 of the year 0.
pub record IsDate (n y m d : ℕ) : Type 0 where
  pub from_january : 1 ≤ m
  pub to_december : m ≤ 12
  pub from_first : 1 ≤ d
  pub to_last :
      d + days_before m
      ≤ days_before (m + 1) + (if m == 2 then leap_days (y + 1) - leap_days y else 0)
  pub counted : n ≡ 365 * y + leap_days (if leb m 2 then y else y + 1) + days_before m + (d - 1)

-- whether a test succeeds for each smaller number
below : (ℕ → Bool) → ℕ → Bool
below test zero = true
below test (suc n) = test n && below test n

below-holds : (test : ℕ → Bool) (n m : ℕ) → below test n ≡ true → m < n → test m ≡ true
unfolding below
below-holds test zero m h less = absurd (omega (arith, less))
below-holds test (suc n) m h less =
    let (now, rest) = &&-eq-true (test n) (below test n) h in
    elim (Bool-cases (m == n)) [
      | inl e ↦ subst (λ k. test k ≡ true) (sym ((==_iff m n).0 e)) now
      | inr e ↦ below-holds test n m rest (ground (arith, e, less))
    ]

era-parts :
    (z y doy : ℕ)
    → y ≡ year_of_era (z - z / 146097 * 146097) + z / 146097 * 400
    → doy ≡ day_of_year (z - z / 146097 * 146097) (year_of_era (z - z / 146097 * 146097))
    → (365 * y + leap_days (y + 1) + doy ≡ z + 1)
      × (doy ≤ 365)
      × (doy ≤ 364 + (leap_days (y + 2) - leap_days (y + 1)))
era-parts z y doy e h = (omega (arith, e, h), omega (arith, e, h), omega (arith, e, h))

-- The code's formula for the days before a month, from March on, against the table.
table : ℕ → Bool
table mp = days_before (mp + 3) + 306 == (153 * mp + 2) / 5 + 365

table-holds : below table 11 ≡ true
unfolding below table
table-holds = refl

march_table : (mp : ℕ) → mp < 11 → days_before (mp + 3) + 306 ≡ (153 * mp + 2) / 5 + 365
unfolding table
march_table mp h = (==_iff _ _).0 (below-holds table 11 mp table-holds h)

-- March to December
spring-IsDate :
    (n y doy mp : ℕ)
    → 365 * y + leap_days (y + 1) + doy + 59 ≡ n
    → mp ≡ (5 * doy + 2) / 153
    → mp < 10
    → IsDate n y (mp + 3) (doy - (153 * mp + 2) / 5 + 1)
spring-IsDate n y doy mp count e h =
    let here = march_table mp (omega (arith, h)) in
    let shift : mp + 1 + 3 ≡ mp + 3 + 1 = omega arith in
    let there = rw shift at (march_table (mp + 1) (omega (arith, h))) in
    let later : (mp + 3 == 2) ≡ false = ground arith in
    let march : leb (mp + 3) 2 ≡ false = ground arith in
    record {
      from_january = omega arith;
      to_december = omega (arith, h);
      from_first = omega arith;
      to_last = rw later (omega (arith, e, h, here, there));
      counted = rw march (omega (arith, e, h, here, count));
    }

winter-IsDate :
    (n y doy : ℕ)
    → 365 * y + leap_days (y + 1) + doy + 59 ≡ n
    → doy ≤ 364 + (leap_days (y + 2) - leap_days (y + 1))
    → ((5 * doy + 2) / 153 ≡ 10 → IsDate n (y + 1) 1 (doy - 306 + 1))
      × ((5 * doy + 2) / 153 ≡ 11 → IsDate n (y + 1) 2 (doy - 337 + 1))
winter-IsDate n y doy count last = (
  λ e. record {
    from_january = omega arith;
    to_december = omega arith;
    from_first = omega arith;
    to_last = omega (arith, e);
    counted = omega (arith, e, count);
  },
  λ e. record {
    from_january = omega arith;
    to_december = omega arith;
    from_first = omega arith;
    to_last = omega (arith, e, last);
    counted = omega (arith, e, count);
  },
)

civil_of-IsDate :
    (n y doy : ℕ)
    → 365 * y + leap_days (y + 1) + doy + 59 ≡ n
    → doy ≤ 365
    → doy ≤ 364 + (leap_days (y + 2) - leap_days (y + 1))
    → IsDate n (civil_of y doy).0 (civil_of y doy).1 (civil_of y doy).2
unfolding civil_of
civil_of-IsDate n y doy count most last =
    let (january, february) = winter-IsDate n y doy count last in
    elim (Bool-cases (ltb ((5 * doy + 2) / 153) 10)) [
      | inl e ↦
          let march : leb ((5 * doy + 2) / 153 + 3) 2 ≡ false = ground arith in
          rw (e, march) (spring-IsDate n y doy ((5 * doy + 2) / 153) count refl (ground (arith, e)))
      | inr e ↦ elim (Bool-cases ((5 * doy + 2) / 153 == 10)) [
        | inl f ↦ let ten = (==_iff _ _).0 f in rw ten (january ten)
        | inr f ↦
            let eleven : (5 * doy + 2) / 153 ≡ 11 = ground (arith, e, f, most) in
            rw eleven (february eleven)
      ]
    ]

-- The date of a day names that day: it is a date of the calendar, and the day's number from January 1
-- of the year 0 on is the number of days since 1970 and the 719528 days before.
pub civil_from_days-IsDate :
    (days : ℕ)
    → IsDate
        (days + 719528)
        (civil_from_days days).0
        (civil_from_days days).1
        (civil_from_days days).2
unfolding civil_from_days
civil_from_days-IsDate days =
    let (count, most, last) = era-parts (days + 719468) _ _ refl refl in
    civil_of-IsDate (days + 719528) _ _ (omega (arith, count)) most last
