-- ===== src/Core/Version/RoundTrip.antt =====
-- Printing a version and parsing it back.
use abora_framework.Common.{
  ℕ, ◌≡◌, ◌<◌, ◌≢◌, refl, subst, inl, inr, Option-cases, true, false, List, [], ◌∷◌, ◌++◌,
  append_assoc, append-nil, arith, ok, >>=-eq-ok, Text, Lacks, Option, none, some, All, All-append,
  All→all, is_empty, is_ascii_digit, split_once, split, split_once_lacking, split_once-append,
  split_once_parts, split_once-Lacks, split-append, split_lacking,
}
use abora_framework.Core.Version.{
  Version, parse, display, cut_suffix, show_suffix, parse_component, parse_parts,
}
use abora_framework.Common.Decimal.{
  u64_limit, show, show-IsDigits, show-ne-nil, parse_uint-show, parse_uint-lt,
}

abbrev pub SuffixLacks : Option Text → Type 0
SuffixLacks none = Unit
SuffixLacks (some s) = Lacks b'+' s

-- A version that `parse` can yield: numbers of 64 bits, and no `+` in the prerelease.
pub record IsCanonical (v : Version) : Type 0 where
  pub major_fits : v.major < u64_limit
  pub minor_fits : v.minor < u64_limit
  pub patch_fits : v.patch < u64_limit
  pub prerelease_lacks : SuffixLacks v.prerelease

Lacks-digits :
    (d : ℕ) (s : Text) → is_ascii_digit d ≡ false → All (λ c. is_ascii_digit c ≡ true) s → Lacks d s
Lacks-digits d [] h k = tt
Lacks-digits d (c ∷ s) h (hc, k) = ((λ e. cc), Lacks-digits d s h k)

Lacks-show : (d n : ℕ) → is_ascii_digit d ≡ false → Lacks d (show n)
Lacks-show d n h = Lacks-digits d (show n) h (show-IsDigits n)

-- A suffix is cut off where it was put on.
cut_suffix-show_suffix :
    (d : ℕ) (head : Text) (suffix : Option Text)
    → Lacks d head
    → cut_suffix (split_once d (head ++ show_suffix d suffix)) (head ++ show_suffix d suffix)
      ≡ (head, suffix)
cut_suffix-show_suffix d head none h = rw append-nil (rw (split_once_lacking d head h))
cut_suffix-show_suffix d head (some s) h = rw (split_once-append d head s h)

numbers : Version → Text
numbers v = show v.major ++ (b'.' ∷ show v.minor ++ (b'.' ∷ show v.patch))

Lacks-numbers : (d : ℕ) (v : Version) → is_ascii_digit d ≡ false → b'.' ≢ d → Lacks d (numbers v)
unfolding numbers
Lacks-numbers d v h k =
    All-append _ (show v.major) _ (Lacks-show d v.major h)
      (k, All-append _ (show v.minor) _ (Lacks-show d v.minor h) (k, Lacks-show d v.patch h))

split-numbers :
    (v : Version) → split b'.' (numbers v) ≡ show v.major ∷ show v.minor ∷ show v.patch ∷ []
unfolding numbers
split-numbers v = rw (split-append b'.' (show v.major) _ (Lacks-show b'.' v.major refl)) (
    rw (split-append b'.' (show v.minor) _ (Lacks-show b'.' v.minor refl))
      (rw (split_lacking b'.' (show v.patch) (Lacks-show b'.' v.patch refl))))

display-eq :
    (v : Version)
    → display v ≡ (numbers v ++ show_suffix b'-' v.prerelease) ++ show_suffix b'+' v.build
unfolding display numbers
display-eq v = simp append_assoc

Lacks-show_suffix : (o : Option Text) → SuffixLacks o → Lacks b'+' (show_suffix b'-' o)
Lacks-show_suffix none h = tt
Lacks-show_suffix (some s) h = (omega arith, h)

is_empty-show : (n : ℕ) → is_empty (show n) ≡ false
is_empty-show n = go (show n) (show-ne-nil n)
  where
    go : (s : Text) → s ≢ [] → is_empty s ≡ false
    go [] h = absurd (h refl)
    go (c ∷ s) h = refl

parse_component-show : (n : ℕ) → n < u64_limit → parse_component (show n) ≡ ok n
unfolding parse_component
parse_component-show n h = rw (
  is_empty-show n,
  All→all is_ascii_digit (show n) (show-IsDigits n),
  parse_uint-show u64_limit n h,
)

parse_parts-show :
    (input : Text) (v : Version)
    → IsCanonical v
    → parse_parts input v.prerelease v.build (show v.major ∷ show v.minor ∷ show v.patch ∷ [])
      ≡ ok v
unfolding parse_parts
parse_parts-show input v h = simp (
  parse_component-show v.major h.major_fits,
  parse_component-show v.minor h.minor_fits,
  parse_component-show v.patch h.patch_fits,
)

-- Every canonical version parses back from what is printed for it.
pub parse-display : (v : Version) → IsCanonical v → parse (display v) ≡ ok v
unfolding parse
parse-display v h =
    let lacks_dash = Lacks-numbers b'-' v refl (λ e. absurd (omega (arith, e))) in
    let lacks_plus = Lacks-numbers b'+' v refl (λ e. absurd (omega (arith, e))) in
    let head = numbers v ++ show_suffix b'-' v.prerelease in
    let cut_build =
      cut_suffix-show_suffix b'+' head v.build (
        All-append _ (numbers v) _ lacks_plus
          (Lacks-show_suffix v.prerelease h.prerelease_lacks)) in
    rw (display-eq v) (
      rw cut_build (
        rw (cut_suffix-show_suffix b'-' (numbers v) v.prerelease lacks_dash)
          (rw (split-numbers v) (parse_parts-show (head ++ show_suffix b'+' v.build) v h))))

parse_component-lt : (part : Text) {n : ℕ} → parse_component part ≡ ok n → n < u64_limit
unfolding parse_component
parse_component-lt part {n} h = parse_uint-lt u64_limit part n (omega arith) (ground (arith, h))

record PartsFit (prerelease : Option Text) (v : Version) : Type 0 where
  major_fits : v.major < u64_limit
  minor_fits : v.minor < u64_limit
  patch_fits : v.patch < u64_limit
  prerelease_kept : v.prerelease ≡ prerelease

parse_parts-PartsFit :
    (input : Text) (prerelease build : Option Text) (parts : List Text) (v : Version)
    → parse_parts input prerelease build parts ≡ ok v
    → PartsFit prerelease v
unfolding parse_parts
parse_parts-PartsFit input prerelease build (a ∷ b ∷ c ∷ []) v h =
    let (major, is_major, h1) = >>=-eq-ok (parse_component a) _ h in
    let (minor, is_minor, h2) = >>=-eq-ok (parse_component b) _ h1 in
    let (patch, is_patch, h3) = >>=-eq-ok (parse_component c) _ h2 in
    ground (
      arith,
      parse_component-lt a is_major,
      parse_component-lt b is_minor,
      parse_component-lt c is_patch,
      h3,
    )
parse_parts-PartsFit input prerelease build _ v h = cc

Lacks-right : (d : ℕ) (s : Text) (c : ℕ) (t : Text) → Lacks d (s ++ c ∷ t) → Lacks d t
Lacks-right d [] c t (_, h) = h
Lacks-right d (e ∷ s) c t (_, h) = Lacks-right d s c t h

-- The part before the first `+` lacks it, and so does a prerelease cut from that part.
Lacks-before : (d : ℕ) (s : Text) → Lacks d (cut_suffix (split_once d s) s).0
Lacks-before d s = elim (Option-cases (split_once d s)) [
  | inl e ↦ rw e (split_once-Lacks d s e)
  | inr ((a, b), e) ↦ rw e (split_once_parts d s e).1
]

SuffixLacks-cut : (d : ℕ) (s : Text) → Lacks b'+' s → SuffixLacks (cut_suffix (split_once d s) s).1
SuffixLacks-cut d s h = elim (Option-cases (split_once d s)) [
  | inl e ↦ rw e tt
  | inr ((a, b), e) ↦
      rw e (Lacks-right b'+' a d b (subst (Lacks b'+') (split_once_parts d s e).0 h))
]

-- Whatever `parse` accepts is canonical.
pub parse-IsCanonical : (input : Text) (v : Version) → parse input ≡ ok v → IsCanonical v
unfolding parse
parse-IsCanonical input v h =
    let (before_build, build) = cut_suffix (split_once b'+' input) input in
    let (numbers, prerelease) = cut_suffix (split_once b'-' before_build) before_build in
    let fit = parse_parts-PartsFit input prerelease build (split b'.' numbers) v h in
    record {
      major_fits = fit.major_fits;
      minor_fits = fit.minor_fits;
      patch_fits = fit.patch_fits;
      prerelease_lacks = rw fit.prerelease_kept (SuffixLacks-cut b'-' _ (Lacks-before b'+' input));
    }
