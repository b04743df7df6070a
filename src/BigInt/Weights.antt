-- ===== src/BigInt/Weights.antt =====
-- Weights of words, powers and remainders.
use beelzebub.Common.{
  ℕ, zero, suc, ◌+◌, ◌*◌, ◌/◌, ◌%◌, ◌^◌, ◌≤◌, ◌<◌, ◌≡◌, refl, sym, subst, ap, ◌∙◌, true, false, leb,
  ◌==◌, leb→le, Bool-cases, inl, inr, arith,
}
use native.Mathlib.Nat.{
  mul_assoc, mul_comm, mul_right_comm, mul-mul-mul_comm, mul-suc, add-mul, pow-suc, pow-zero,
  add-mul-mod_self_left, mod-add-div, mod-eq_of_lt,
}
use beelzebub.BigInt.{minimum}
use beelzebub.BigInt.Words.{weight}

pub weight_mono : (n m : ℕ) → n ≤ m → weight n ≤ weight m
weight_mono zero zero l = omega arith
weight_mono zero (suc m) l = omega (arith, weight_mono zero m (omega arith))
weight_mono (suc n) zero l = absurd (omega arith)
weight_mono (suc n) (suc m) l = omega (arith, weight_mono n m (omega arith))

pub weight-add : (n m : ℕ) → weight (n + m) ≡ weight n * weight m
weight-add zero m = let e : 0 + m ≡ m = omega arith in omega (arith, ap weight e)
weight-add (suc n) m =
    let e : suc n + m ≡ suc (n + m) = omega arith in
    omega (arith, ap weight e, weight-add n m, mul_assoc (2 ^ 32) (weight n) (weight m))

pub pow-add : (x a b : ℕ) → x ^ (a + b) ≡ x ^ a * x ^ b
pow-add x zero b =
    let e : 0 + b ≡ b = omega arith in
    omega (arith, ap (λ (n : ℕ). x ^ n) e, ap (λ (n : ℕ). n * x ^ b) (pow-zero x))
pow-add x (suc a) b =
    let e : suc a + b ≡ suc (a + b) = omega arith in
    ap (λ (n : ℕ). x ^ n) e
    ∙ pow-suc x (a + b)
    ∙ ap (λ (n : ℕ). n * x) (pow-add x a b)
    ∙ mul_right_comm (x ^ a) (x ^ b) x
    ∙ ap (λ (n : ℕ). n * x ^ b) (sym (pow-suc x a))

pub square-pow : (p k : ℕ) → (p * p) ^ k ≡ p ^ (k + k)
square-pow p zero = pow-zero (p * p) ∙ sym (pow-zero p)
square-pow p (suc k) =
    pow-suc (p * p) k
    ∙ ap (λ (n : ℕ). n * (p * p)) (square-pow p k ∙ pow-add p k k)
    ∙ mul-mul-mul_comm (p ^ k) (p ^ k) p p
    ∙ ap (λ (n : ℕ). n * n) (sym (pow-suc p k))
    ∙ sym (pow-add p (suc k) (suc k))

pub pow_even : (p e : ℕ) → (e % 2 == 1) ≡ false → (p * p) ^ (e / 2) ≡ p ^ e
pow_even p e n =
    let h : e / 2 + e / 2 ≡ e = ground arith in square-pow p (e / 2) ∙ ap (λ (k : ℕ). p ^ k) h

pub pow_odd : (p e : ℕ) → (e % 2 == 1) ≡ true → p * (p * p) ^ (e / 2) ≡ p ^ e
pow_odd p e n =
    let h : suc (e / 2 + e / 2) ≡ e = ground arith in
    ap (λ (k : ℕ). p * k) (square-pow p (e / 2))
    ∙ mul_comm p (p ^ (e / 2 + e / 2))
    ∙ sym (pow-suc p (e / 2 + e / 2))
    ∙ ap (λ (k : ℕ). p ^ k) h

pub pow-pow : (x a k : ℕ) → (x ^ a) ^ k ≡ x ^ (a * k)
pow-pow x a zero =
    let e : 0 ≡ a * 0 = omega arith in pow-zero (x ^ a) ∙ sym (pow-zero x) ∙ ap (λ (n : ℕ). x ^ n) e
pow-pow x a (suc k) =
    let e : a * k + a ≡ a * suc k = omega (arith, mul-suc a k) in
    pow-suc (x ^ a) k
    ∙ ap (λ (n : ℕ). n * x ^ a) (pow-pow x a k)
    ∙ sym (pow-add x (a * k) a)
    ∙ ap (λ (n : ℕ). x ^ n) e

-- A remainder may be taken before a product.
pub mod-mul : (a b w : ℕ) → (a % w * b) % w ≡ (a * b) % w
mod-mul a b w =
    sym (add-mul-mod_self_left (a % w * b) w (a / w * b))
    ∙ ap (λ (n : ℕ). n % w)
        (omega (
          arith,
          ap (λ (n : ℕ). n * b) (mod-add-div a w),
          add-mul (a % w) (w * (a / w)) b,
          mul_assoc w (a / w) b,
        ))

pub weight-pos : (n : ℕ) → 0 < weight n
weight-pos zero = omega arith
weight-pos (suc n) = omega (arith, weight-pos n)

-- A product in as many words as both numbers have, or in all there are.
pub limited :
    (a b v t most : ℕ)
    → v < weight a
    → t < weight b
    → (v * t) % weight (minimum (a + b) most) ≡ (v * t) % weight most
limited a b v t most p q = elim (Bool-cases (leb (a + b) most)) [
  | inl l ↦
      let room : a + b ≤ most = leb→le _ _ l in
      let wide = weight_mono (a + b) most room in
      let fit : v * t < weight (a + b) =
        subst (λ w. v * t < w) (sym (weight-add a b)) (mul_lt p q) in
      rw l (mod-eq_of_lt fit ∙ sym (mod-eq_of_lt (omega arith)))
  | inr g ↦ rw g refl
]
  where
    mul_lt : {a b c d : ℕ} → a < b → c < d → a * c < b * d
    mul_lt h k = grind arith

pub weight-pow : (n : ℕ) → weight n ≡ 2 ^ (32 * n)
weight-pow zero = refl
weight-pow (suc n) =
    let e : 32 + 32 * n ≡ 32 * suc n = omega arith in
    ap (λ (k : ℕ). 2 ^ 32 * k) (weight-pow n)
    ∙ sym (pow-add 2 32 (32 * n))
    ∙ ap (λ (k : ℕ). 2 ^ k) e

pub remainder : (v w q n : ℕ) → v + w * q ≡ n → v < w → v ≡ n % w
remainder v w q n e l = grind arith
