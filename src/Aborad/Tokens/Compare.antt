-- ===== src/Aborad/Tokens/Compare.antt =====
-- The constant-time comparison is equality.
use Prim.Native.Nat.{digits, differ, max, bit_or, bit_xor, bit_or-bitwise, bit_xor-bitwise}
use abora_framework.Common.{
  ℕ, zero, suc, ◌/◌, ◌%◌, ◌≡◌, ◌≤◌, ◌↔◌, refl, ap, arith, true, List, [], ◌∷◌, length, ==_iff,
}
use abora_framework.Aborad.Tokens.{fold_diff, ct_eq}

differ-eq-zero : (d e : ℕ) → differ d e ≡ 0 → d ≡ e
differ-eq-zero zero e p = omega arith
differ-eq-zero (suc d) zero p = omega arith
differ-eq-zero (suc d) (suc e) p = ap suc (differ-eq-zero d e p)

xor_digits-eq-zero : (n a b : ℕ) → a ≤ n → digits (λ b. b) differ n a b ≡ 0 → a ≡ b
xor_digits-eq-zero zero zero b h p = omega arith
xor_digits-eq-zero zero (suc a) b h p = absurd (omega arith)
xor_digits-eq-zero (suc n) zero b h p = omega arith
xor_digits-eq-zero (suc n) (suc a) b h p =
    let high = xor_digits-eq-zero n (suc a / 2) (b / 2) (omega arith) (omega arith) in
    let low = differ-eq-zero (suc a % 2) (b % 2) (omega arith) in omega arith

bit_xor-eq-zero : (a b : ℕ) → bit_xor a b ≡ 0 → a ≡ b
bit_xor-eq-zero a b p = xor_digits-eq-zero a a b (omega arith) (omega (arith, bit_xor-bitwise a b))

or_digits-eq-zero : (n a b : ℕ) → a ≤ n → digits (λ b. b) max n a b ≡ 0 → (a ≡ 0) × (b ≡ 0)
or_digits-eq-zero zero zero b h p = (refl, p)
or_digits-eq-zero zero (suc a) b h p = absurd (omega arith)
or_digits-eq-zero (suc n) zero b h p = (refl, p)
or_digits-eq-zero (suc n) (suc a) b h p =
    let (high, high') = or_digits-eq-zero n (suc a / 2) (b / 2) (omega arith) (omega arith) in
    (omega arith, omega arith)

bit_or-eq-zero : (a b : ℕ) → bit_or a b ≡ 0 → (a ≡ 0) × (b ≡ 0)
bit_or-eq-zero a b p = or_digits-eq-zero a a b (omega arith) (omega (arith, bit_or-bitwise a b))

differ_self : (d : ℕ) → differ d d ≡ 0
differ_self zero = refl
differ_self (suc d) = differ_self d

xor_digits_self : (n a : ℕ) → a ≤ n → digits (λ b. b) differ n a a ≡ 0
xor_digits_self zero zero h = refl
xor_digits_self zero (suc a) h = absurd (omega arith)
xor_digits_self (suc n) zero h = refl
xor_digits_self (suc n) (suc a) h =
    omega (arith, xor_digits_self n (suc a / 2) (omega arith), differ_self (suc a % 2))

bit_xor_self : (a : ℕ) → bit_xor a a ≡ 0
bit_xor_self a = omega (arith, bit_xor-bitwise a a, xor_digits_self a a (omega arith))

fold_diff-eq-zero :
    (diff : ℕ) (a b : List ℕ) → length a ≡ length b → fold_diff diff a b ≡ 0 → (diff ≡ 0) × (a ≡ b)
unfolding fold_diff
fold_diff-eq-zero diff [] [] h p = (p, refl)
fold_diff-eq-zero diff [] (y ∷ b) h p = absurd (omega arith)
fold_diff-eq-zero diff (x ∷ a) [] h p = absurd (omega arith)
fold_diff-eq-zero diff (x ∷ a) (y ∷ b) h p =
    let (both, tails) = fold_diff-eq-zero (bit_or diff (bit_xor x y)) a b (omega arith) p in
    let (none_before, same) = bit_or-eq-zero diff (bit_xor x y) both in
    (none_before, cc (bit_xor-eq-zero x y same, tails))

fold_diff_self : (a : List ℕ) → fold_diff 0 a a ≡ 0
unfolding fold_diff
fold_diff_self [] = refl
fold_diff_self (x ∷ a) = rw (bit_xor_self x) (fold_diff_self a)

-- On hashes of one length, the comparison that visits every byte answers yes exactly for equal ones.
pub ct_eq_iff : (a b : List ℕ) → length a ≡ length b → (ct_eq a b ≡ true) ↔ (a ≡ b)
unfolding ct_eq
ct_eq_iff a b h = (
  λ p. (fold_diff-eq-zero 0 a b h ((==_iff (fold_diff 0 a b) 0).0 p)).1,
  λ e. rw e ((==_iff (fold_diff 0 b b) 0).1 (fold_diff_self b)),
)
