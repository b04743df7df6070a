-- ===== src/BigInt/Multiplying/Rows.antt =====
-- The loops of `BigIntMul` in libs/common/src/utils/bigint.cpp, as additions to the words in place.
use beelzebub.Common.{
  ℕ, zero, suc, ◌+◌, ◌-◌, ◌*◌, ◌/◌, ◌%◌, ◌^◌, ◌≤◌, ◌<◌, ◌≡◌, refl, ap, ◌∙◌, List, false, ◌==◌,
  ==_iff, if◌then◌else◌, Bool-cases, inl, inr, arith,
}
use native.Mathlib.Nat.{mul_assoc, mul_comm, mul-le-mul}
use beelzebub.BigInt.{head, tail, drop, add_carry, mul_row, mul_rows}
use beelzebub.BigInt.Words.{value, weight, AreWords, head-AreWords, tail-AreWords}

-- What is added to a number that fits: `res` is the carry out of its words.
record Carried (n : ℕ) (dst : List ℕ) (res : ℕ) (r : List ℕ × ℕ) : Type 0 where
  pub sum : value n r.0 + weight n * r.1 ≡ value n dst + res
  pub fits : AreWords r.0
  pub rest : drop n r.0 ≡ drop n dst

add_carry-Carried :
    (n : ℕ) (dst : List ℕ) (res : ℕ)
    → AreWords dst
    → res + 2 ^ 32 ≤ 2 ^ 64
    → Carried n dst res (add_carry n dst res)
unfolding add_carry
add_carry-Carried zero dst res h k = record { sum = omega arith; fits = h; rest = refl }
add_carry-Carried (suc n) dst res h k =
    let low = head-AreWords dst h in
    let sum = (res + head dst) % 2 ^ 64 in
    let ih = add_carry-Carried n (tail dst) (sum / 2 ^ 32) (tail-AreWords dst h) (omega arith) in
    elim (Bool-cases (res == 0)) [
      | inl e ↦
          let z = (==_iff res 0).0 e in
          rw e record {
            sum = omega (arith, ap (λ (r : ℕ). weight (suc n) * r) z);
            fits = h;
            rest = refl;
          }
      | inr e ↦ rw e record {
        sum = omega (
          arith,
          ih.sum,
          mul_assoc (2 ^ 32) (weight n) (add_carry n (tail dst) (sum / 2 ^ 32)).1,
        );
        fits = (omega arith, ih.fits);
        rest = ih.rest;
      }
    ]

-- A product of words, as the code computes it in 64 bits.
word_product : (a b : ℕ) → a < 2 ^ 32 → b < 2 ^ 32 → a * b + 2 ^ 33 ≤ 2 ^ 64 + 1
word_product a b p q =
    let top : a * b ≤ (2 ^ 32 - 1) * (2 ^ 32 - 1) =
      mul-le-mul {n₂ = 2 ^ 32 - 1} {m₂ = 2 ^ 32 - 1} (omega arith) (omega arith) in
    omega arith

spread : (a x v : ℕ) → a * (x + 2 ^ 32 * v) ≡ a * x + 2 ^ 32 * (a * v)
spread a x v = grind arith

gather : (n q c : ℕ) → 2 ^ 32 * weight n * (q + c) ≡ 2 ^ 32 * (weight n * q) + 2 ^ 32 * weight n * c
gather n q c = grind arith

-- The number after `number` has been added to it, but for a multiple of the weight of its words.
pub record Added (n number : ℕ) (dst words : List ℕ) : Type 0 where
  pub lost : ℕ
  pub sum : value n words + weight n * lost ≡ value n dst + number
  pub fits : AreWords words
  pub rest : drop n words ≡ drop n dst

mul_row-Added :
    (m n current : ℕ) (ys dst : List ℕ)
    → current < 2 ^ 32
    → AreWords ys
    → AreWords dst
    → Added n (current * value m ys) dst (mul_row m n current ys dst).0
unfolding mul_row
mul_row-Added zero n current ys dst c h k = record {
  lost = 0;
  sum = omega arith;
  fits = k;
  rest = refl;
}
mul_row-Added (suc m) zero current ys dst c h k = record {
  lost = current * value (suc m) ys;
  sum = omega arith;
  fits = k;
  rest = refl;
}
mul_row-Added (suc m) (suc n) current ys dst c h k =
    let y = head-AreWords ys h in
    let top = word_product current (head ys) c y in
    let added = add_carry (suc n) dst ((current * head ys) % 2 ^ 64) in
    let a = add_carry-Carried (suc n) dst ((current * head ys) % 2 ^ 64) k (omega arith) in
    let ih =
      mul_row-Added m n current (tail ys) (tail added.0) c (tail-AreWords ys h)
        (tail-AreWords added.0 a.fits) in
    record {
      lost = ih.lost + added.1;
      sum = omega (
        arith,
        a.sum,
        ih.sum,
        spread current (head ys) (value m (tail ys)),
        gather n ih.lost added.1,
      );
      fits = (head-AreWords added.0 a.fits, ih.fits);
      rest = ih.rest ∙ a.rest;
    }

pub mul_rows-Added :
    (m n size2 : ℕ) (xs ys dst : List ℕ)
    → AreWords xs
    → AreWords ys
    → AreWords dst
    → Added n (value m xs * value size2 ys) dst (mul_rows m n size2 xs ys dst).0
unfolding mul_rows
mul_rows-Added zero n size2 xs ys dst h k l = record {
  lost = 0;
  sum = omega arith;
  fits = l;
  rest = refl;
}
mul_rows-Added (suc m) zero size2 xs ys dst h k l = record {
  lost = value (suc m) xs * value size2 ys;
  sum = omega arith;
  fits = l;
  rest = refl;
}
mul_rows-Added (suc m) (suc n) size2 xs ys dst h k l =
    let v = value size2 ys in
    let a = row in
    let words = (if head xs == 0 then (dst, false) else mul_row size2 (suc n) (head xs) ys dst).0 in
    let ih =
      mul_rows-Added m n size2 (tail xs) ys (tail words) (tail-AreWords xs h) k
        (tail-AreWords words a.fits) in
    record {
      lost = ih.lost + a.lost;
      sum = omega (
        arith,
        a.sum,
        ih.sum,
        mul_comm (value (suc m) xs) v,
        mul_comm (value m (tail xs)) v,
        mul_comm (head xs) v,
        spread v (head xs) (value m (tail xs)),
        gather n ih.lost a.lost,
      );
      fits = (head-AreWords words a.fits, ih.fits);
      rest = ih.rest ∙ a.rest;
    }
  where
    row :
        Added
          (suc n)
          (head xs * value size2 ys)
          dst
          (if head xs == 0 then (dst, false) else mul_row size2 (suc n) (head xs) ys dst).0
    row = elim (Bool-cases (head xs == 0)) [
      | inl e ↦
          let z = (==_iff (head xs) 0).0 e in
          rw e record {
            lost = 0;
            sum = omega (arith, ap (λ (x : ℕ). x * value size2 ys) z);
            fits = l;
            rest = refl;
          }
      | inr e ↦ rw e (mul_row-Added size2 (suc n) (head xs) ys dst (head-AreWords xs h) k l)
    ]
