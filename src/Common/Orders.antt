-- ===== src/Common/Orders.antt =====
-- The order of texts, and lists in another order.
use mathlib.Core.Path.{◌≡◌, refl}
use mathlib.Core.Bool.{Bool, true, false, ◌&&◌, ◌||◌}
use mathlib.Core.List.{List, [], ◌∷◌}
use native.Mathlib.Omega.{arith}
use abora_framework.Common.Tests.{ltb, ◌==◌}
use abora_framework.Common.Lists.{All}
use abora_framework.Common.Texts.{Text}

-- `Ord` of `String`: by bytes, which in UTF-8 is by scalar values
abbrev pub text_leb : Text → Text → Bool
text_leb [] t = true
text_leb (c ∷ s) [] = false
text_leb (c ∷ s) (d ∷ t) = ltb c d || (c == d && text_leb s t)

pub text_leb_total : (s t : Text) → text_leb s t ≡ false → text_leb t s ≡ true
text_leb_total [] t h = cc
text_leb_total (c ∷ s) [] h = refl
text_leb_total (c ∷ s) (d ∷ t) h = ground (arith, text_leb_total s t)

pub text_leb_trans :
    (s t u : Text) → text_leb s t ≡ true → text_leb t u ≡ true → text_leb s u ≡ true
text_leb_trans [] t u h k = refl
text_leb_trans (c ∷ s) [] u h k = cc
text_leb_trans (c ∷ s) (d ∷ t) [] h k = cc
text_leb_trans (c ∷ s) (d ∷ t) (e ∷ u) h k = ground (arith, text_leb_trans s t u)

pub text_leb_antisym : (s t : Text) → text_leb s t ≡ true → text_leb t s ≡ true → s ≡ t
text_leb_antisym [] [] h k = refl
text_leb_antisym [] (d ∷ t) h k = cc
text_leb_antisym (c ∷ s) [] h k = cc
text_leb_antisym (c ∷ s) (d ∷ t) h k = ground (arith, text_leb_antisym s t)

module _ {ℓ} {A : Type ℓ} where
  -- The same elements in another order.
  pub data Shuffled : List A → List A → Type ℓ where
    nil : Shuffled [] []
    keep : (x : A) {xs ys : List A} → Shuffled xs ys → Shuffled (x ∷ xs) (x ∷ ys)
    swap : (x y : A) (xs : List A) → Shuffled (x ∷ y ∷ xs) (y ∷ x ∷ xs)
    then_ : {xs ys zs : List A} → Shuffled xs ys → Shuffled ys zs → Shuffled xs zs

  pub Shuffled-self : (xs : List A) → Shuffled xs xs
  Shuffled-self [] = nil
  Shuffled-self (x ∷ xs) = keep x (Shuffled-self xs)

  -- What holds of all elements does not depend on their order.
  pub All-Shuffled {κ} : (P : A → Type κ) {xs ys : List A} → Shuffled xs ys → All P xs → All P ys
  All-Shuffled P nil h = h
  All-Shuffled P (keep x s) (hx, h) = (hx, All-Shuffled P s h)
  All-Shuffled P (swap x y xs) (hx, (hy, h)) = (hy, (hx, h))
  All-Shuffled P (then_ s t) h = All-Shuffled P t (All-Shuffled P s h)
