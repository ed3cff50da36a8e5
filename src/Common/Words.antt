-- ===== src/Common/Words.antt =====
-- Substrings and words of a text, as Rust's `str` finds them.
use Prim.Native.Nat.{ℕ, ◌+◌}
use mathlib.Core.Path.{◌≡◌, refl, ap}
use mathlib.Core.Logic.{◌↔◌, inl, inr}
use native.Mathlib.Omega.{arith}
use mathlib.Core.Bool.{Bool, true, not, ◌||◌}
use mathlib.Core.Option.{Option, none, some}
use mathlib.Core.List.{List, [], ◌∷◌, ◌++◌}
use abora_framework.Common.Tests.{Bool-cases, if◌then◌else◌}
use abora_framework.Common.Lists.{filter, is_empty}
use abora_framework.Common.Texts.{
  Text, text_eq, text_eq_iff, text_eq_refl, starts_with, split_by, is_whitespace,
  is_ascii_uppercase,
}

-- `str::ends_with`
abbrev pub ends_with : Text → Text → Bool
ends_with [] t = text_eq [] t
ends_with (c ∷ s) t = text_eq (c ∷ s) t || ends_with s t

-- `str::contains`, of a text
abbrev pub contains_text : Text → Text → Bool
contains_text [] t = starts_with [] t
contains_text (c ∷ s) t = starts_with (c ∷ s) t || contains_text s t

abbrev put_before : ℕ → Option (Text × Text) → Option (Text × Text)
put_before c none = none
put_before c (some (a, b)) = some (c ∷ a, b)

-- `str::find`, of a text: what stands before the first match, and the rest from it on
abbrev pub cut_at : Text → Text → Option (Text × Text)
cut_at t [] = if starts_with [] t then some ([], []) else none
cut_at t (c ∷ s) =
    let rest = cut_at t s in if starts_with (c ∷ s) t then some ([], c ∷ s) else put_before c rest

-- `str::split_whitespace`
abbrev pub split_whitespace : Text → List Text
split_whitespace s = filter (λ w. not (is_empty w)) (split_by is_whitespace s)

-- `slice::join`
abbrev pub join : Text → List Text → Text
join sep [] = []
join sep (w ∷ []) = w
join sep (w ∷ v ∷ ws) = w ++ (sep ++ join sep (v ∷ ws))

-- `str::ascii_lowercase`
abbrev pub ascii_lowercase : Text → Text
ascii_lowercase [] = []
ascii_lowercase (c ∷ s) = (if is_ascii_uppercase c then c + 32 else c) ∷ ascii_lowercase s

-- The first text contains the second.
abbrev pub Contains : Text → Text → Type 0
Contains s t = (before : Text) × (after : Text) × (s ≡ before ++ (t ++ after))

starts_with_parts : (s t : Text) → starts_with s t ≡ true → (after : Text) × (s ≡ t ++ after)
starts_with_parts s [] h = (s, refl)
starts_with_parts [] (d ∷ t) h = cc
starts_with_parts (c ∷ s) (d ∷ t) h =
    let (after, same) = starts_with_parts s t (ground (arith, h)) in
    (after, ground (arith, h, same))

pub starts_with-append : (t after : Text) → starts_with (t ++ after) t ≡ true
starts_with-append [] after = refl
starts_with-append (c ∷ t) after = rw (starts_with-append t after) (ground arith)

pub contains_text_parts : (s t : Text) → contains_text s t ≡ true → Contains s t
contains_text_parts [] t h = let (after, same) = starts_with_parts [] t h in ([], after, same)
contains_text_parts (c ∷ s) t h = elim (Bool-cases (starts_with (c ∷ s) t)) [
  | inl e ↦ let (after, same) = starts_with_parts (c ∷ s) t e in ([], after, same)
  | inr e ↦
      let (before, after, same) = contains_text_parts s t (rw e at h) in
      (c ∷ before, after, ap (◌∷◌ c) same)
]

contains_text-append : (before t after : Text) → contains_text (before ++ (t ++ after)) t ≡ true
contains_text-append [] t after = whole (t ++ after) t (starts_with-append t after)
  where
    whole : (s t : Text) → starts_with s t ≡ true → contains_text s t ≡ true
    whole [] t h = h
    whole (c ∷ s) t h = rw h refl
contains_text-append (c ∷ before) t after = rw (contains_text-append before t after) (ground arith)

pub contains_text_iff : (s t : Text) → (contains_text s t ≡ true) ↔ Contains s t
contains_text_iff s t = (
  contains_text_parts s t,
  λ h. let (before, after, same) = h in rw same (contains_text-append before t after),
)

pub ends_with_parts : (s t : Text) → ends_with s t ≡ true → (stem : Text) × (s ≡ stem ++ t)
ends_with_parts [] t h = ([], (text_eq_iff [] t).0 h)
ends_with_parts (c ∷ s) t h = elim (Bool-cases (text_eq (c ∷ s) t)) [
  | inl e ↦ ([], (text_eq_iff (c ∷ s) t).0 e)
  | inr e ↦ let (stem, same) = ends_with_parts s t (rw e at h) in (c ∷ stem, ap (◌∷◌ c) same)
]

ends_with_self : (t : Text) → ends_with t t ≡ true
ends_with_self [] = refl
ends_with_self (c ∷ t) = rw (text_eq_refl (c ∷ t)) refl

pub ends_with-append : (stem t : Text) → ends_with (stem ++ t) t ≡ true
ends_with-append [] t = ends_with_self t
ends_with-append (c ∷ stem) t = rw (ends_with-append stem t) (ground arith)
