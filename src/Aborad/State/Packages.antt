-- ===== src/Aborad/State/Packages.antt =====
-- The packages of a request: those of the last check, in order, each once.
use abora_framework.Common.{
  text_leb, text_leb_total, text_leb_trans, text_leb_antisym, ◌≤◌, ◌≡◌, ◌≢◌, ◌↔◌, inl, inr, arith,
  true, false, List, [], ◌∷◌, map, Text, text_eq, text_eq_iff, All-mono, subst, All, Some,
  Bool-cases, length,
}
use abora_framework.Update.{AvailableUpdate}
use abora_framework.Aborad.State.{insert, sort, keep_new, dedup, requested_packages}
use abora_framework.Aborad.State.Members.{
  Some-sort, Some-dedup, Some-map_iff, length-sort, length-dedup, length-components,
}

-- What holds of every text holds of every sorted one.
All-insert : (P : Text → Type 0) (x : Text) (ys : List Text) → P x → All P ys → All P (insert x ys)
unfolding insert
All-insert P x [] h k = (h, tt)
All-insert P x (y ∷ ys) h (hy, k) = elim (Bool-cases (text_leb x y)) [
  | inl e ↦ rw e (h, (hy, k))
  | inr e ↦ rw e (hy, All-insert P x ys h k)
]

All-keep_new :
    (P : Text → Type 0) (x : Text) (ys : List Text) → P x → All P ys → All P (keep_new x ys)
All-keep_new P x [] h k = (h, tt)
All-keep_new P x (y ∷ ys) h (hy, k) = elim (Bool-cases (text_eq x y)) [
  | inl e ↦ rw e (hy, k)
  | inr e ↦ rw e (h, (hy, k))
]

All-dedup : (P : Text → Type 0) (xs : List Text) → All P xs → All P (dedup xs)
unfolding dedup
All-dedup P [] h = tt
All-dedup P (x ∷ xs) (hx, h) = All-keep_new P x (dedup xs) hx (All-dedup P xs h)

All-sort : (P : Text → Type 0) (xs : List Text) → All P xs → All P (sort xs)
unfolding sort
All-sort P [] h = tt
All-sort P (x ∷ xs) (hx, h) = All-insert P x (sort xs) hx (All-sort P xs h)

IsAscending : List Text → Type 0
IsAscending [] = Unit
IsAscending (x ∷ xs) = All (λ y. text_leb x y ≡ true) xs × IsAscending xs

-- Each text before every later one, and different from it.
abbrev pub IsStrict : List Text → Type 0
IsStrict [] = Unit
IsStrict (x ∷ xs) = All (λ y. (text_leb x y ≡ true) × (x ≢ y)) xs × IsStrict xs

insert-IsAscending : (x : Text) (ys : List Text) → IsAscending ys → IsAscending (insert x ys)
unfolding insert IsAscending
insert-IsAscending x [] h = (tt, tt)
insert-IsAscending x (y ∷ ys) (hy, h) = elim (Bool-cases (text_leb x y)) [
  | inl e ↦ rw e ((e, All-mono _ _ ys (λ z. text_leb_trans x y z e) hy), (hy, h))
  | inr e ↦ rw e (
    All-insert (λ z. text_leb y z ≡ true) x ys (text_leb_total x y e) hy,
    insert-IsAscending x ys h,
  )
]

sort-IsAscending : (xs : List Text) → IsAscending (sort xs)
unfolding sort IsAscending
sort-IsAscending [] = tt
sort-IsAscending (x ∷ xs) = insert-IsAscending x (sort xs) (sort-IsAscending xs)

keep_new-IsStrict :
    (x : Text) (ys : List Text)
    → All (λ y. text_leb x y ≡ true) ys
    → IsStrict ys
    → IsStrict (keep_new x ys)
keep_new-IsStrict x [] k h = (tt, tt)
keep_new-IsStrict x (y ∷ ys) (ky, k) (hy, h) = elim (Bool-cases (text_eq x y)) [
  | inl e ↦ rw e (hy, h)
  | inr e ↦ rw e (((ky, differ e), All-mono _ _ ys later hy), (hy, h))
]
  where
    differ : text_eq x y ≡ false → x ≢ y
    differ e same = let equal = (text_eq_iff x y).1 same in cc

    later : (z : Text) → (text_leb y z ≡ true) × (y ≢ z) → (text_leb x z ≡ true) × (x ≢ z)
    later z (le, ne) = (
      text_leb_trans x y z ky le,
      λ same. ne (text_leb_antisym y z le (subst (λ w. text_leb w y ≡ true) same ky)),
    )

dedup-IsStrict : (xs : List Text) → IsAscending xs → IsStrict (dedup xs)
unfolding dedup IsAscending
dedup-IsStrict [] h = tt
dedup-IsStrict (x ∷ xs) (k, h) =
    keep_new-IsStrict x (dedup xs) (All-dedup _ xs k) (dedup-IsStrict xs h)

-- The packages of a request are exactly the components that the last check listed, in the order of
-- their texts and without doubles.
pub requested_packages-IsStrict :
    (available : List AvailableUpdate) (p : Text)
    → IsStrict (requested_packages available)
      × (Some (λ q. q ≡ p) (requested_packages available)
          ↔ Some (λ (u : AvailableUpdate). u.component ≡ p) available)
unfolding requested_packages
requested_packages-IsStrict available p =
    let names = map (λ (u : AvailableUpdate). u.component) available in
    (
      dedup-IsStrict (sort names) (sort-IsAscending names),
      let P : Text → Type 0 = λ q. q ≡ p in
          let (f, g) = Some-dedup P (sort names) in
          let (f', g') = Some-sort P names in
          let (f'', g'') = Some-map_iff P available in (λ h. f'' (f' (f h)), λ h. g (g' (g'' h))),
    )

pub length-requested_packages :
    (available : List AvailableUpdate) → length (requested_packages available) ≤ length available
unfolding requested_packages
length-requested_packages available =
    let names = map (λ (u : AvailableUpdate). u.component) available in
    omega (arith, length-dedup (sort names), length-sort names, length-components available)

All-components :
    (P : Text → Type 0) (us : List AvailableUpdate)
    → All (λ (u : AvailableUpdate). P u.component) us
    → All P (map (λ (u : AvailableUpdate). u.component) us)
All-components P [] h = tt
All-components P (u ∷ us) (hu, h) = (hu, All-components P us h)

pub All-requested_packages :
    (P : Text → Type 0) (available : List AvailableUpdate)
    → All (λ (u : AvailableUpdate). P u.component) available
    → All P (requested_packages available)
unfolding requested_packages
All-requested_packages P available h = All-dedup P _ (All-sort P _ (All-components P available h))
