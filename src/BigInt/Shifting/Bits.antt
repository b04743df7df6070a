-- ===== src/BigInt/Shifting/Bits.antt =====
-- `|` of numbers without a common bit, as `BigIntShR` of libs/common/src/utils/bigint.cpp uses it.
use Prim.Native.Nat.{max, bit_or, digits, bit_or-bitwise}
use beelzebub.Common.{
  ℕ, zero, suc, ◌+◌, ◌-◌, ◌*◌, ◌/◌, ◌%◌, ◌^◌, ◌≤◌, ◌<◌, ◌≡◌, refl, sym, ap, ◌∙◌, arith,
}
use native.Mathlib.Nat.{
  mul_assoc, mul_comm, pow-suc, mul-lt-mul_of_pos_left, mul-le-mul_right, mod-add-div, mod-lt,
  mul-add, add-mul, pow-le-pow_right,
}
use beelzebub.BigInt.Weights.{pow-add, remainder}

-- The digits of `a` lie below the lowest of `b` that is not 0.
digits-below :
    (n k t a b : ℕ) → b ≡ 2 ^ k * t → a ≤ n → a < 2 ^ k → digits (λ b. b) max n a b ≡ a + b
digits-below zero k t zero b e l m = omega arith
digits-below zero k t (suc a) b e l m = absurd (omega arith)
digits-below (suc n) k t zero b e l m = omega arith
digits-below (suc n) zero t (suc a) b e l m = absurd (omega arith)
digits-below (suc n) (suc k) t (suc a) b e l m =
    let p : 2 ^ suc k ≡ 2 * 2 ^ k = omega (arith, pow-suc 2 k) in
    let even : b ≡ 2 * (2 ^ k * t) =
      omega (arith, mul_assoc 2 (2 ^ k) t, ap (λ (n : ℕ). n * t) p) in
    omega (arith, digits-below n k t (suc a / 2) (b / 2) (omega arith) (omega arith) (omega arith))

pub bit_or-sum : (k t a : ℕ) → a < 2 ^ k → bit_or a (2 ^ k * t) ≡ a + 2 ^ k * t
bit_or-sum k t a l = bit_or-bitwise a (2 ^ k * t) ∙ digits-below a k t a _ refl (omega arith) l

pub pow-pos : (n : ℕ) → 0 < 2 ^ n
pow-pos n =
    let h : 0 ≤ n = omega arith in
    let one : 2 ^ 0 ≤ 2 ^ n = pow-le-pow_right (omega arith) h in omega arith

-- A word shifted up: the half above has only the bits that were shifted in, the half below none.
pub high-lt : (x k : ℕ) → x < 2 ^ 32 → x * 2 ^ k / 2 ^ 32 < 2 ^ k
high-lt x k l =
    let m : suc x * 2 ^ k ≤ 2 ^ 32 * 2 ^ k = mul-le-mul_right (2 ^ k) (omega arith) in
    let p = pow-pos k in omega (arith, add-mul x 1 (2 ^ k))

pub low_multiple : (x k : ℕ) → k ≤ 32 → (t : ℕ) × (x * 2 ^ k % 2 ^ 32 ≡ 2 ^ k * t)
low_multiple x k l =
    let r = 32 - k in
    let q = 2 ^ r in
    let c : k + r ≡ 32 = omega arith in
    let whole : 2 ^ k * q ≡ 2 ^ 32 = sym (pow-add 2 k r) ∙ ap (λ (n : ℕ). 2 ^ n) c in
    let small : x % q < q = mod-lt x (pow-pos r) in
    let less : 2 ^ k * (x % q) < 2 ^ k * q = mul-lt-mul_of_pos_left small (pow-pos k) in
    let split : 2 ^ k * (x % q) + 2 ^ 32 * (x / q) ≡ x * 2 ^ k = omega (
      arith,
      mul_assoc (2 ^ k) q (x / q),
      ap (λ (n : ℕ). n * (x / q)) whole,
      mul-add (2 ^ k) (x % q) (q * (x / q)),
      ap (λ (n : ℕ). 2 ^ k * n) (mod-add-div x q),
      mul_comm x (2 ^ k),
    ) in
    (x % q, sym (remainder (2 ^ k * (x % q)) (2 ^ 32) (x / q) (x * 2 ^ k) split (omega arith)))
