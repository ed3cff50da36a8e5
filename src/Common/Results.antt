-- ===== src/Common/Results.antt =====
-- Rust's `Result`, and the binds by which `do` blocks stand for the `?` operator.
use mathlib.Core.Path.{◌≡◌, refl, ap}
use mathlib.Core.Logic.{◌⊎◌, inl, inr}
use mathlib.Core.Option.{Option, none, some}

pub data Result {ℓ κ} (A : Type ℓ) (E : Type κ) : Type (ℓ ⊔ κ) where
  ok : A → Result A E
  err : E → Result A E

-- `option.ok_or(e)`
abbrev pub ok_or {ℓ κ} : {A : Type ℓ} {E : Type κ} → Option A → E → Result A E
ok_or none e = err e
ok_or (some a) e = ok a

-- `?` on an `Option`
abbrev pub and_then {ℓ κ} : {A : Type ℓ} {B : Type κ} → Option A → (A → Option B) → Option B
and_then none f = none
and_then (some a) f = f a

infixl 5 ◌>>=◌
abbrev pub ◌>>=◌ {ℓ κ λ'} :
    {A : Type ℓ} {B : Type κ} {E : Type λ'} → Result A E → (A → Result B E) → Result B E
ok a >>= f = f a
err e >>= f = err e

pub >>=-eq-ok {ℓ κ λ'} :
    {A : Type ℓ} {B : Type κ} {E : Type λ'} (step : Result A E) (rest : A → Result B E) {out : B}
    → step >>= rest ≡ ok out
    → (mid : A) × (step ≡ ok mid) × (rest mid ≡ ok out)
>>=-eq-ok (err e) rest same = cc
>>=-eq-ok (ok mid) rest same = (mid, refl, same)

pub and_then-eq-some {ℓ κ} :
    {A : Type ℓ} {B : Type κ} (m : Option A) (f : A → Option B) {b : B}
    → and_then m f ≡ some b
    → (a : A) × (m ≡ some a) × (f a ≡ some b)
and_then-eq-some (some a) f h = (a, refl, h)
and_then-eq-some none f h = cc

pub Result-cases {ℓ κ} :
    {A : Type ℓ} {E : Type κ} (r : Result A E) → ((a : A) × (r ≡ ok a)) ⊎ ((e : E) × (r ≡ err e))
Result-cases (ok a) = inl (a, refl)
Result-cases (err e) = inr (e, refl)

abbrev value_or {ℓ κ} : {A : Type ℓ} {E : Type κ} → A → Result A E → A
value_or a (ok b) = b
value_or a (err e) = a

pub ok-injective {ℓ κ} :
    {A : Type ℓ} {E : Type κ} {a b : A} → ◌≡◌ {A = Result A E} (ok a) (ok b) → a ≡ b
ok-injective {a = a} same = ap (value_or a) same

abbrev error_or {ℓ κ} : {A : Type ℓ} {E : Type κ} → E → Result A E → E
error_or e (ok b) = e
error_or e (err f) = f

pub err-injective {ℓ κ} :
    {A : Type ℓ} {E : Type κ} {e f : E} → ◌≡◌ {A = Result A E} (err e) (err f) → e ≡ f
err-injective {e = e} same = ap (error_or e) same
