-- ===== src/Config/Duration/Values.antt =====
-- Which seconds a duration stands for, and where the 64-bit product wraps.
use abora_framework.Common.{
  ℕ, ◌*◌, ◌%◌, ◌^◌, ◌<◌, ◌≡◌, ◌≢◌, ◌↔◌, refl, sym, ◌∙◌, ap, true, false, ok-injective, [], ◌∷◌,
  ◌++◌, arith, ok, some, Text, codes, is_ascii_digit, is_whitespace, trim, trim_end, All,
}
use abora_framework.Common.Decimal.{
  u64_limit, show, show-IsDigits, show-ne-nil, parse_uint-show, parse_uint,
}
use abora_framework.Config.Duration.{split_digits, unit_seconds, duration_of, parse_duration}

trim_end-last : (s : Text) (c : ℕ) → is_whitespace c ≡ false → trim_end (s ++ c ∷ []) ≡ s ++ c ∷ []
trim_end-last [] c h = ground arith
trim_end-last (d ∷ []) c h = rw h
trim_end-last (d ∷ e ∷ s) c h = rw (trim_end-last (e ∷ s) c h)

digit-not-whitespace : (c : ℕ) → is_ascii_digit c ≡ true → is_whitespace c ≡ false
digit-not-whitespace c h = ground arith

trim_digits :
    (s : Text) (c : ℕ)
    → s ≢ []
    → All (λ d. is_ascii_digit d ≡ true) s
    → is_whitespace c ≡ false
    → trim (s ++ c ∷ []) ≡ s ++ c ∷ []
trim_digits [] c h k w = absurd (h refl)
trim_digits (d ∷ s) c h (hd, k) w = rw (trim_end-last (d ∷ s) c w) (rw (digit-not-whitespace d hd))

split_digits-append :
    (s : Text) (c : ℕ)
    → All (λ d. is_ascii_digit d ≡ true) s
    → is_ascii_digit c ≡ false
    → split_digits (s ++ c ∷ []) ≡ (s, c ∷ [])
unfolding split_digits
split_digits-append [] c k h = ground arith
split_digits-append (d ∷ s) c (hd, k) h = rw (hd, split_digits-append s c k h)

-- A unit is one letter: no digit, no white space, and its seconds are positive.
unit_seconds-plain :
    (c mult : ℕ)
    → unit_seconds (c ∷ []) ≡ some mult
    → (is_ascii_digit c ≡ false) × (is_whitespace c ≡ false) × (0 < mult)
unfolding unit_seconds
unit_seconds-plain c mult h = (ground arith, ground arith, ground arith)

duration_of_number :
    (number : Text) (c n mult : ℕ)
    → 0 < n
    → parse_uint u64_limit number ≡ some n
    → unit_seconds (c ∷ []) ≡ some mult
    → duration_of number (c ∷ []) ≡ ok ((n * mult) % u64_limit)
unfolding duration_of
duration_of_number number c n mult h p u = rw (p, u) (ground arith)

-- `<number><unit>` stands for the product, modulo 2^64.
pub parse_duration-show :
    (n c mult : ℕ)
    → 0 < n
    → n < u64_limit
    → unit_seconds (c ∷ []) ≡ some mult
    → parse_duration (show n ++ c ∷ []) ≡ ok ((n * mult) % u64_limit)
unfolding parse_duration
parse_duration-show n c mult h k u =
    let (word, plain, _) = unit_seconds-plain c mult u in
    rw (trim_digits (show n) c (show-ne-nil n) (show-IsDigits n) plain) (
      rw (split_digits-append (show n) c (show-IsDigits n) word)
        (duration_of_number (show n) c n mult h (parse_uint-show u64_limit n k) u))

-- A number with a unit is zero seconds exactly where the product wraps to zero.
duration_wraps_iff :
    (n c mult : ℕ)
    → 0 < n
    → n < u64_limit
    → unit_seconds (c ∷ []) ≡ some mult
    → (parse_duration (show n ++ c ∷ []) ≡ ok 0) ↔ ((n * mult) % u64_limit ≡ 0)
duration_wraps_iff n c mult h k u =
    let seconds = parse_duration-show n c mult h k u in
    (λ e. ok-injective (sym seconds ∙ e), λ e. seconds ∙ ap ok e)

-- A positive number of days below 2^64 is accepted as zero seconds exactly when it is a multiple of
-- 2^57, a number of hours when it is one of 2^60, a number of minutes when it is one of 2^62, and a
-- number of seconds never.
pub parse_duration_zero :
    (n : ℕ)
    → 0 < n
    → n < u64_limit
    → ((parse_duration (show n ++ codes "d") ≡ ok 0) ↔ (n % 2 ^ 57 ≡ 0))
      × ((parse_duration (show n ++ codes "h") ≡ ok 0) ↔ (n % 2 ^ 60 ≡ 0))
      × ((parse_duration (show n ++ codes "m") ≡ ok 0) ↔ (n % 2 ^ 62 ≡ 0))
      × (parse_duration (show n ++ codes "s") ≢ ok 0)
unfolding unit_seconds
parse_duration_zero n h k =
    let (d, d') = duration_wraps_iff n b'd' 86400 h k refl in
    let (r, r') = duration_wraps_iff n b'h' 3600 h k refl in
    let (m, m') = duration_wraps_iff n b'm' 60 h k refl in
    let (s, _) = duration_wraps_iff n b's' 1 h k refl in
    (
      (λ e. omega (arith, d e), λ e. d' (omega (arith, e))),
      (λ e. omega (arith, r e), λ e. r' (omega (arith, e))),
      (λ e. omega (arith, m e), λ e. m' (omega (arith, e))),
      λ e. absurd (omega (arith, s e, h, k)),
    )
