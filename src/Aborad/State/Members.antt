-- ===== src/Aborad/State/Members.antt =====
-- `sort` and `dedup` of services/aborad/src/state.rs keep the members, and their number at most.
use abora_framework.Common.{
  text_leb, suc, ap, ◌≤◌, ◌+◌, ◌≡◌, ◌↔◌, ◌⊎◌, refl, inl, inr, arith, List, [], ◌∷◌, map, Text,
  text_eq, text_eq_iff, Some, Bool-cases, length,
}
use abora_framework.Update.{AvailableUpdate}
use abora_framework.Aborad.State.{insert, sort, keep_new, dedup}

-- Insertion adds one element, and sorting and removing doubles none.
pub Some-insert :
    (P : Text → Type 0) (x : Text) (ys : List Text) → Some P (insert x ys) ↔ (P x ⊎ Some P ys)
unfolding insert
Some-insert P x [] = (λ h. h, λ h. h)
Some-insert P x (y ∷ ys) = elim (Bool-cases (text_leb x y)) [
  | inl e ↦ rw e (λ h. h, λ h. h)
  | inr e ↦ rw e (there (Some-insert P x ys).0, back (Some-insert P x ys).1)
]
  where
    there :
        (Some P (insert x ys) → P x ⊎ Some P ys)
        → P y ⊎ Some P (insert x ys)
        → P x ⊎ (P y ⊎ Some P ys)
    there f (inl h) = inr (inl h)
    there f (inr h) = elim (f h) [ inl a ↦ inl a | inr b ↦ inr (inr b) ]

    back :
        (P x ⊎ Some P ys → Some P (insert x ys))
        → P x ⊎ (P y ⊎ Some P ys)
        → P y ⊎ Some P (insert x ys)
    back f (inl h) = inr (f (inl h))
    back f (inr (inl h)) = inl h
    back f (inr (inr h)) = inr (f (inr h))

pub Some-sort : (P : Text → Type 0) (xs : List Text) → Some P (sort xs) ↔ Some P xs
unfolding sort
Some-sort P [] = (λ h. h, λ h. h)
Some-sort P (x ∷ xs) =
    let (f, g) = Some-insert P x (sort xs) in
    let (f', g') = Some-sort P xs in
    (
      λ h. elim (f h) [ inl a ↦ inl a | inr b ↦ inr (f' b) ],
      λ h. g (elim h [ inl a ↦ inl a | inr b ↦ inr (g' b) ]),
    )

pub Some-keep_new :
    (P : Text → Type 0) (x : Text) (ys : List Text) → Some P (keep_new x ys) ↔ (P x ⊎ Some P ys)
Some-keep_new P x [] = (λ h. h, λ h. h)
Some-keep_new P x (y ∷ ys) = elim (Bool-cases (text_eq x y)) [
  | inr e ↦ rw e (λ h. h, λ h. h)
  | inl e ↦ rw (e, (text_eq_iff x y).0 e) (inr, λ h. elim h [ inl a ↦ inl a | inr b ↦ b ])
]

pub Some-dedup : (P : Text → Type 0) (xs : List Text) → Some P (dedup xs) ↔ Some P xs
unfolding dedup
Some-dedup P [] = (λ h. h, λ h. h)
Some-dedup P (x ∷ xs) =
    let (f, g) = Some-keep_new P x (dedup xs) in
    let (f', g') = Some-dedup P xs in
    (
      λ h. elim (f h) [ inl a ↦ inl a | inr b ↦ inr (f' b) ],
      λ h. g (elim h [ inl a ↦ inl a | inr b ↦ inr (g' b) ]),
    )

pub Some-map_iff :
    (P : Text → Type 0) (us : List AvailableUpdate)
    → Some P (map (λ (u : AvailableUpdate). u.component) us)
      ↔ Some (λ (u : AvailableUpdate). P u.component) us
Some-map_iff P [] = (λ h. h, λ h. h)
Some-map_iff P (u ∷ us) =
    let (f, g) = Some-map_iff P us in
    (
      λ h. elim h [ inl a ↦ inl a | inr b ↦ inr (f b) ],
      λ h. elim h [ inl a ↦ inl a | inr b ↦ inr (g b) ],
    )

pub length-insert : (x : Text) (ys : List Text) → length (insert x ys) ≡ 1 + length ys
unfolding insert
length-insert x [] = refl
length-insert x (y ∷ ys) = ground (arith, length-insert x ys)

pub length-sort : (xs : List Text) → length (sort xs) ≡ length xs
unfolding sort
length-sort [] = refl
length-sort (x ∷ xs) = omega (arith, length-insert x (sort xs), length-sort xs)

pub length-keep_new : (x : Text) (ys : List Text) → length (keep_new x ys) ≤ 1 + length ys
length-keep_new x [] = omega arith
length-keep_new x (y ∷ ys) = ground arith

pub length-dedup : (xs : List Text) → length (dedup xs) ≤ length xs
unfolding dedup
length-dedup [] = omega arith
length-dedup (x ∷ xs) = omega (arith, length-keep_new x (dedup xs), length-dedup xs)

pub length-components :
    (us : List AvailableUpdate) → length (map (λ (u : AvailableUpdate). u.component) us) ≡ length us
length-components [] = refl
length-components (u ∷ us) = ap suc (length-components us)
