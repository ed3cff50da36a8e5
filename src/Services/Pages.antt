-- ===== src/Services/Pages.antt =====
-- The pager of crates/abora-services/src/lib.rs: what a page is, and a client that asks
-- for page after page.
use abora_framework.Common.{
  ◌*◌, and_then, ℕ, zero, suc, ◌+◌, ◌%◌, ◌≤◌, ◌<◌, min, ◌≡◌, inl, inr, leb, leb→le, refl, sym, ap,
  ◌∙◌, arith, Bool, List, [], ◌∷◌, ◌++◌, Option, none, some, length, take, drop, filter, is_empty,
  Bool-cases, if◌then◌else◌,
}
use abora_framework.Common.Decimal.{u64_limit}
use abora_framework.Services.{
  ServiceStatus, ServiceQuery, matches, total_matching, page_end, slice, apply,
}

suc-add : (n m : ℕ) → suc n + m ≡ suc (n + m)
suc-add n m = omega arith

module _ {A : Type 0} where
  take-nil : (n : ℕ) → take {A = A} n [] ≡ []
  take-nil zero = refl
  take-nil (suc n) = refl

  drop-nil : (n : ℕ) → drop {A = A} n [] ≡ []
  drop-nil zero = refl
  drop-nil (suc n) = refl

  drop-take : (n m : ℕ) (xs : List A) → drop n (take (n + m) xs) ≡ take m (drop n xs)
  drop-take zero m xs = ground arith
  drop-take (suc n) m [] = rw (take-nil (suc n + m)) (sym (take-nil m))
  drop-take (suc n) m (x ∷ xs) = rw (suc-add n m) (drop-take n m xs)

  drop-add : (n m : ℕ) (xs : List A) → drop (n + m) xs ≡ drop m (drop n xs)
  drop-add zero m xs = ground arith
  drop-add (suc n) m [] = rw (drop-nil (suc n + m)) (sym (drop-nil m))
  drop-add (suc n) m (x ∷ xs) = rw (suc-add n m) (drop-add n m xs)

  take_long : (n : ℕ) (xs : List A) → length xs ≤ n → take n xs ≡ xs
  take_long zero [] h = refl
  take_long zero (x ∷ xs) h = absurd (omega arith)
  take_long (suc n) [] h = refl
  take_long (suc n) (x ∷ xs) h = ap (◌∷◌ x) (take_long n xs (omega arith))

  drop_long : (n : ℕ) (xs : List A) → length xs ≤ n → drop n xs ≡ []
  drop_long zero [] h = refl
  drop_long zero (x ∷ xs) h = absurd (omega arith)
  drop_long (suc n) [] h = refl
  drop_long (suc n) (x ∷ xs) h = drop_long n xs (omega arith)

  take-min : (n : ℕ) (xs : List A) → take (min n (length xs)) xs ≡ take n xs
  take-min n xs = elim (Bool-cases (leb (length xs) n)) [
    | inl e ↦
        rw (the_right (leb→le (length xs) n e))
          (take_long (length xs) xs (omega arith) ∙ sym (take_long n xs (leb→le (length xs) n e)))
    | inr e ↦ rw (the_left (ground (arith, e))) refl
  ]
    where
      the_right : length xs ≤ n → min n (length xs) ≡ length xs
      the_right h = omega arith

      the_left : n ≤ length xs → min n (length xs) ≡ n
      the_left h = omega arith

  drop-min : (n : ℕ) (xs : List A) → drop (min n (length xs)) xs ≡ drop n xs
  drop-min n xs = elim (Bool-cases (leb (length xs) n)) [
    | inl e ↦
        rw (the_right (leb→le (length xs) n e))
          (drop_long (length xs) xs (omega arith) ∙ sym (drop_long n xs (leb→le (length xs) n e)))
    | inr e ↦ rw (the_left (ground (arith, e))) refl
  ]
    where
      the_right : length xs ≤ n → min n (length xs) ≡ length xs
      the_right h = omega arith

      the_left : n ≤ length xs → min n (length xs) ≡ n
      the_left h = omega arith

-- the limit as a number that the offset is added to
abbrev pub limit_or_zero : Option ℕ → ℕ
limit_or_zero none = 0
limit_or_zero (some n) = n

-- The page of a list: from the offset on, at most so many; no limit, and a limit of 0, mean all.
abbrev pub page : {A : Type 0} → Option ℕ → ℕ → List A → List A
page none offset xs = drop offset xs
page (some zero) offset xs = drop offset xs
page (some (suc n)) offset xs = take (suc n) (drop offset xs)

slice_lem :
    {A : Type 0} (xs : List A) (start end : ℕ)
    → start ≤ end
    → end ≤ length xs
    → slice xs start end ≡ some (drop start (take end xs))
slice_lem xs start end h k = ground arith

page_all :
    {A : Type 0} (offset : ℕ) (xs : List A)
    → slice xs (min offset (length xs)) (length xs) ≡ some (drop offset xs)
page_all offset xs =
    slice_lem xs (min offset (length xs)) (length xs) (omega arith) (omega arith)
    ∙ ap some (rw (take_long (length xs) xs (omega arith)) (drop-min offset xs))

page_some :
    {A : Type 0} (n offset : ℕ) (xs : List A)
    → n + length xs < u64_limit
    → slice xs (min offset (length xs)) (min ((min offset (length xs) + n) % u64_limit) (length xs))
      ≡ some (take n (drop offset xs))
page_some n offset xs fits =
    slice_lem xs (min offset (length xs)) _ (omega arith) (omega arith)
    ∙ ap some (
        rw
          (
            the_end,
            take-min (min offset (length xs) + n) xs,
            drop-take (min offset (length xs)) n xs,
          )
          (ap (take n) (drop-min offset xs)))
  where
    the_end : (min offset (length xs) + n) % u64_limit ≡ min offset (length xs) + n
    the_end = omega arith

slice-page :
    {A : Type 0} (limit : Option ℕ) (offset : ℕ) (xs : List A)
    → limit_or_zero limit + length xs < u64_limit
    → slice xs (min offset (length xs)) (page_end limit (min offset (length xs)) (length xs))
      ≡ some (page limit offset xs)
unfolding page_end
slice-page none offset xs fits = page_all offset xs
slice-page (some zero) offset xs fits = page_all offset xs
slice-page (some (suc n)) offset xs fits = page_some (suc n) offset xs fits

page-nil : {A : Type 0} (limit : Option ℕ) (offset : ℕ) → page {A = A} limit offset [] ≡ []
page-nil none offset = drop-nil offset
page-nil (some zero) offset = drop-nil offset
page-nil (some (suc n)) offset = ap (take (suc n)) (drop-nil offset)

length-filter : {A : Type 0} (p : A → Bool) (xs : List A) → length (filter p xs) ≤ length xs
length-filter p [] = omega arith
length-filter p (x ∷ xs) = ground (arith, length-filter p xs)

-- Where the limit and the number of services together fit a `usize`, `apply` does not panic, and
-- returns the page of the matches that the limit and the offset ask for.
pub apply-page :
    (query : ServiceQuery) (services : List ServiceStatus)
    → limit_or_zero query.limit + length services < u64_limit
    → apply query services ≡ some (page query.limit query.offset (filter (matches query) services))
unfolding apply
apply-page query services fits = go (filter (matches query) services) enough
  where
    enough : limit_or_zero query.limit + length (filter (matches query) services) < u64_limit
    enough = omega (arith, length-filter (matches query) services)

    go :
        (xs : List ServiceStatus)
        → limit_or_zero query.limit + length xs < u64_limit
        → (if is_empty xs
            then some []
            else slice xs
                (min query.offset (length xs))
                (page_end query.limit (min query.offset (length xs)) (length xs)))
          ≡ some (page query.limit query.offset xs)
    go [] h = ap some (sym (page-nil query.limit query.offset))
    go (x ∷ xs) h = slice-page query.limit query.offset (x ∷ xs) h

-- A client that asks for `count` pages of `n` services, one after the other, and joins them.
pub walk : ServiceQuery → List ServiceStatus → ℕ → ℕ → ℕ → Option (List ServiceStatus)
walk query services n zero offset = some []
walk query services n (suc count) offset =
    and_then (apply (record query { limit = some n; offset = offset }) services)
      λ page. and_then (walk query services n count (offset + n)) λ rest. some (page ++ rest)

take-take-drop :
    {A : Type 0} (n m k : ℕ) (xs : List A)
    → take n (drop m xs) ++ take k (drop (m + n) xs) ≡ take (n + k) (drop m xs)
take-take-drop {A = A} n m k xs = rw (drop-add m n xs) (joined n (drop m xs))
  where
    joined : (i : ℕ) (ys : List A) → take i ys ++ take k (drop i ys) ≡ take (i + k) ys
    joined zero ys = ground arith
    joined (suc i) [] = rw (take-nil k) (sym (take-nil (suc i + k)))
    joined (suc i) (y ∷ ys) = rw (suc-add i k) (ap (◌∷◌ y) (joined i ys))

product : (n count : ℕ) → suc n + count * suc n ≡ suc count * suc n
product n count = omega arith

walk-take :
    (query : ServiceQuery) (services : List ServiceStatus) (n count offset : ℕ)
    → suc n + length services < u64_limit
    → walk query services (suc n) count offset
      ≡ some (take (count * suc n) (drop offset (filter (matches query) services)))
unfolding walk matches
walk-take query services n zero offset fits =
    let nothing : 0 * suc n ≡ 0 = omega arith in
    ap some (sym (ap (λ k. take k (drop offset (filter (matches query) services))) nothing))
walk-take query services n (suc count) offset fits =
    let matched = filter (matches query) services in
    rw
      (
        apply-page (record query { limit = some (suc n); offset = offset }) services fits,
        walk-take query services n count (offset + suc n) fits,
      )
      (ap some (
        take-take-drop (suc n) offset (count * suc n) matched
        ∙ ap (λ k. take k (drop offset matched)) (product n count)))

-- The pages at the offsets 0, n, 2n and so on, with the limit n, joined: as soon as there are enough of
-- them for all matches, they are the services that match, each once and in the order of the list. The
-- limit is not 0, and together with the number of services it fits a `usize`.
pub walk-matches :
    (query : ServiceQuery) (services : List ServiceStatus) (n count : ℕ)
    → suc n + length services < u64_limit
    → total_matching query services ≤ count * suc n
    → walk query services (suc n) count 0 ≡ some (filter (matches query) services)
unfolding total_matching
walk-matches query services n count fits enough =
    walk-take query services n count 0 fits
    ∙ ap some (take_long (count * suc n) (filter (matches query) services) enough)
