-- ===== src/Config/Clock/Exact.antt =====
-- `parse_clock` accepts exactly the 24-hour clock texts.
use abora_framework.Common.{
  ℕ, ◌+◌, ◌*◌, ◌/◌, ◌%◌, ◌<◌, ◌≡◌, ◌↔◌, refl, true, [], ◌∷◌, arith, ok, Text, is_ascii_digit, inl,
  inr, len, Option-cases, all, ◌==◌, ◌++◌, ◌-◌, ◌≤◌, some, split_once, split_once_parts,
}
use abora_framework.Common.Decimal.{parse_uint, u32_limit}
use abora_framework.Config.Clock.{parse_clock, clock_parts, clock_minutes}

-- The text `HH:MM` of a minute of the day.
pub clock_text : ℕ → Text
clock_text n =
    (b'0' + n / 60 / 10)
    ∷ (b'0' + n / 60 % 10)
    ∷ b':'
    ∷ (b'0' + n % 60 / 10)
    ∷ (b'0' + n % 60 % 10)
    ∷ []

pub parse_clock-clock_text : (n : ℕ) → n < 1440 → parse_clock (clock_text n) ≡ ok n
unfolding parse_clock clock_text
parse_clock-clock_text n h = ground arith

digit_bounds : (c : ℕ) → is_ascii_digit c ≡ true → (b'0' ≤ c) × (c ≤ b'9')
digit_bounds c h = ground arith

-- Two digits, as `len` and the digit test see them.
record IsTwoDigits (s : Text) : Type 0 where
  tens : ℕ
  units : ℕ
  tens_digit : is_ascii_digit tens ≡ true
  units_digit : is_ascii_digit units ≡ true
  text_is : s ≡ tens ∷ units ∷ []

IsTwoDigits-intro : (s : Text) → (len s == 2) ≡ true → all is_ascii_digit s ≡ true → IsTwoDigits s
IsTwoDigits-intro [] h k = cc
IsTwoDigits-intro (a ∷ []) h k = absurd (ground arith)
IsTwoDigits-intro (a ∷ b ∷ []) h k = record {
  tens = a;
  units = b;
  tens_digit = ground arith;
  units_digit = ground arith;
  text_is = refl;
}
IsTwoDigits-intro (a ∷ b ∷ c ∷ s) h k = absurd (ground arith)

value_of : ℕ → ℕ → ℕ
value_of a b = (a - b'0') * 10 + (b - b'0')

parse_two_digits :
    (a b : ℕ)
    → is_ascii_digit a ≡ true
    → is_ascii_digit b ≡ true
    → parse_uint u32_limit (a ∷ b ∷ []) ≡ some (value_of a b)
unfolding parse_uint value_of
parse_two_digits a b ha hb = ground arith

clock_parts_digits :
    (a b c d : ℕ)
    → is_ascii_digit a ≡ true
    → is_ascii_digit b ≡ true
    → is_ascii_digit c ≡ true
    → is_ascii_digit d ≡ true
    → clock_parts (a ∷ b ∷ []) (c ∷ d ∷ []) ≡ clock_minutes (value_of a b) (value_of c d)
unfolding clock_parts
clock_parts_digits a b c d ha hb hc hd =
    ground (arith, parse_two_digits a b ha hb, parse_two_digits c d hc hd)

clock_minutes-eq-ok :
    (h m n : ℕ) → clock_minutes h m ≡ ok n → (h < 24) × (m < 60) × (n ≡ h * 60 + m)
unfolding clock_minutes
clock_minutes-eq-ok h m n e = ground arith

clock_text_digits :
    (a b c d n : ℕ)
    → is_ascii_digit a ≡ true
    → is_ascii_digit b ≡ true
    → is_ascii_digit c ≡ true
    → is_ascii_digit d ≡ true
    → value_of a b < 24
    → value_of c d < 60
    → n ≡ value_of a b * 60 + value_of c d
    → (a ≡ b'0' + n / 60 / 10)
      × (b ≡ b'0' + n / 60 % 10)
      × (c ≡ b'0' + n % 60 / 10)
      × (d ≡ b'0' + n % 60 % 10)
unfolding value_of
clock_text_digits a b c d n ha hb hc hd hh hm e =
    let (a1, a2) = digit_bounds a ha in
    let (b1, b2) = digit_bounds b hb in
    let (c1, c2) = digit_bounds c hc in let (d1, d2) = digit_bounds d hd in omega arith

digits-exact :
    (a b c d n : ℕ)
    → is_ascii_digit a ≡ true
    → is_ascii_digit b ≡ true
    → is_ascii_digit c ≡ true
    → is_ascii_digit d ≡ true
    → clock_parts (a ∷ b ∷ []) (c ∷ d ∷ []) ≡ ok n
    → (n < 1440) × (a ∷ b ∷ b':' ∷ c ∷ d ∷ [] ≡ clock_text n)
unfolding clock_text
digits-exact a b c d n ha hb hc hd h =
    let (hh, hm, e) =
      clock_minutes-eq-ok (value_of a b) (value_of c d) n
        (rw (clock_parts_digits a b c d ha hb hc hd) at h) in
    let (ea, eb, ec, ed) = clock_text_digits a b c d n ha hb hc hd hh hm e in (omega arith, cc)

clock_parts-exact :
    (hour minute : Text) (n : ℕ)
    → clock_parts hour minute ≡ ok n
    → (n < 1440) × (hour ++ b':' ∷ minute ≡ clock_text n)
unfolding clock_parts
clock_parts-exact hour minute n h =
    let hs = IsTwoDigits-intro hour (ground arith) (ground arith) in
    let ms = IsTwoDigits-intro minute (ground arith) (ground arith) in
    rw (hs.text_is, ms.text_is)
      (digits-exact hs.tens hs.units ms.tens ms.units n hs.tens_digit hs.units_digit ms.tens_digit
        ms.units_digit (rw (hs.text_is, ms.text_is) at h))

-- A text parses as a clock exactly when it is `HH:MM` of a minute of the day, and to that minute.
pub parse_clock_iff :
    (s : Text) (n : ℕ) → (parse_clock s ≡ ok n) ↔ ((n < 1440) × (s ≡ clock_text n))
unfolding parse_clock
parse_clock_iff s n = (there, λ (h, e). rw e (parse_clock-clock_text n h))
  where
    there : parse_clock s ≡ ok n → (n < 1440) × (s ≡ clock_text n)
    there h = elim (Option-cases (split_once b':' s)) [
      | inl e ↦ cc (rw (e, parse_clock) at h)
      | inr ((hour, minute), e) ↦
          rw (split_once_parts b':' s e).0
            (clock_parts-exact hour minute n (rw (e, parse_clock) at h))
    ]
