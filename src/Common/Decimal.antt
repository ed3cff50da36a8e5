-- ===== src/Common/Decimal.antt =====
-- `parse::<u32>()`, `parse::<u64>()` and the decimal `Display` of unsigned numbers.
use Prim.Native.Nat.{ℕ, zero, suc, ◌+◌, ◌-◌, ◌*◌, ◌/◌, ◌%◌, ◌^◌, ◌<◌}
use mathlib.Core.Path.{◌≡◌, refl, ◌∙◌}
use mathlib.Core.Bool.{true}
use mathlib.Core.Logic.{◌≢◌, inl, inr}
use mathlib.Core.Option.{Option, none, some}
use mathlib.Core.List.{[], ◌∷◌, ◌++◌}
use native.Mathlib.Omega.{arith}
use abora_framework.Common.Tests.{ltb, ◌==◌, if◌then◌else◌, Bool-cases}
use abora_framework.Common.Results.{and_then}
use abora_framework.Common.Lists.{All, All-append}
use abora_framework.Common.Texts.{Text, is_ascii_digit}

-- The loop of `from_str_radix(10)`; `limit` is 2 to the width, and overflow is an error.
scan : ℕ → ℕ → Text → Option ℕ
scan limit n [] = some n
scan limit n (c ∷ s) =
    let n' = n * 10 + (c - b'0') in
    let rest = scan limit n' s in
    if is_ascii_digit c then (if ltb n' limit then rest else none) else none

-- A single `+` is no number; a leading `+` is skipped.
after_plus : ℕ → Text → Option ℕ
after_plus limit [] = none
after_plus limit (c ∷ s) = scan limit 0 (c ∷ s)

unfoldable pub parse_uint : ℕ → Text → Option ℕ
unfolding scan after_plus
parse_uint limit [] = none
parse_uint limit (c ∷ s) = if c == b'+' then after_plus limit s else scan limit 0 (c ∷ s)

abbrev pub u32_limit : ℕ
u32_limit = 2 ^ 32

abbrev pub u64_limit : ℕ
u64_limit = 2 ^ 64

-- The digits of a number; `f` bounds how many.
digits : ℕ → ℕ → Text
digits zero n = []
digits (suc f) n =
    let rest = digits f (n / 10) in
    if ltb n 10 then (b'0' + n) ∷ [] else rest ++ (b'0' + n % 10) ∷ []

unfoldable pub show : ℕ → Text
unfolding digits
show n = digits (suc n) n

scan-append :
    (limit n : ℕ) (s t : Text)
    → scan limit n (s ++ t) ≡ and_then (scan limit n s) (λ m. scan limit m t)
unfolding scan
scan-append limit n [] t = refl
scan-append limit n (c ∷ s) t = ground (arith, scan-append limit (n * 10 + (c - b'0')) s t)

digits-IsDigits : (f n : ℕ) → All (λ c. is_ascii_digit c ≡ true) (digits f n)
unfolding digits
digits-IsDigits zero n = tt
digits-IsDigits (suc f) n = elim (Bool-cases (ltb n 10)) [
  | inl e ↦ rw e (ground arith, tt)
  | inr e ↦
      rw e (All-append _ (digits f (n / 10)) _ (digits-IsDigits f (n / 10)) (ground arith, tt))
]

-- Enough fuel gives all the digits, which scan back to the number.
scan-digits : (limit f n : ℕ) → n < f → n < limit → scan limit 0 (digits f n) ≡ some n
unfolding digits scan
scan-digits limit zero n h k = elim h [ ]
scan-digits limit (suc f) n h k = elim (Bool-cases (ltb n 10)) [
  | inl e ↦ rw e (ground arith)
  | inr e ↦
      rw (e, scan-append limit 0 (digits f (n / 10)) _)
        (rw (scan-digits limit f (n / 10) (ground arith) (omega arith)) (ground arith))
]

pub show-IsDigits : (n : ℕ) → All (λ c. is_ascii_digit c ≡ true) (show n)
unfolding show
show-IsDigits n = digits-IsDigits (suc n) n

append-cons-ne-nil : (s : Text) (c : ℕ) (t : Text) → s ++ c ∷ t ≢ []
append-cons-ne-nil [] c t h = cc
append-cons-ne-nil (d ∷ s) c t h = cc

digits-ne-nil : (f n : ℕ) → digits (suc f) n ≢ []
unfolding digits
digits-ne-nil f n h = elim (Bool-cases (ltb n 10)) [
  | inl e ↦ cc (rw e at h)
  | inr e ↦ append-cons-ne-nil (digits f (n / 10)) _ [] (rw e at h)
]

parse_uint_digits :
    (limit : ℕ) (s : Text)
    → s ≢ []
    → All (λ c. is_ascii_digit c ≡ true) s
    → parse_uint limit s ≡ scan limit 0 s
unfolding parse_uint
parse_uint_digits limit [] h k = absurd (h refl)
parse_uint_digits limit (c ∷ s) h (hc, k) = ground arith

-- What `Display` prints parses back.
pub parse_uint-show : (limit n : ℕ) → n < limit → parse_uint limit (show n) ≡ some n
unfolding show
parse_uint-show limit n h =
    parse_uint_digits limit (digits (suc n) n) (digits-ne-nil n n) (digits-IsDigits (suc n) n)
    ∙ scan-digits limit (suc n) n (omega arith) h

pub show-ne-nil : (n : ℕ) → show n ≢ []
unfolding show
show-ne-nil n = digits-ne-nil n n

scan-lt : (limit n : ℕ) (s : Text) (m : ℕ) → n < limit → scan limit n s ≡ some m → m < limit
unfolding scan
scan-lt limit n [] m h e = ground arith
scan-lt limit n (c ∷ s) m h e = ground (arith, scan-lt limit (n * 10 + (c - b'0')) s m)

after_plus-lt : (limit : ℕ) (s : Text) (m : ℕ) → 0 < limit → after_plus limit s ≡ some m → m < limit
unfolding after_plus
after_plus-lt limit [] m h e = cc
after_plus-lt limit (c ∷ s) m h e = scan-lt limit 0 (c ∷ s) m h e

-- A parsed number fits its width.
pub parse_uint-lt :
    (limit : ℕ) (s : Text) (m : ℕ) → 0 < limit → parse_uint limit s ≡ some m → m < limit
unfolding parse_uint
parse_uint-lt limit [] m h e = cc
parse_uint-lt limit (c ∷ s) m h e =
    ground (arith, after_plus-lt limit s m, scan-lt limit 0 (c ∷ s) m)
