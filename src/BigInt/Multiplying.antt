-- ===== src/BigInt/Multiplying.antt =====
-- `BigIntMul` of libs/common/src/utils/bigint.cpp against multiplication.
pub mod Rows
use beelzebub.Common.{
  ℕ, zero, suc, ◌+◌, ◌-◌, ◌*◌, ◌/◌, ◌%◌, ◌^◌, ◌≤◌, ◌<◌, ◌≡◌, refl, sym, subst, ap, ◌∙◌, List, [],
  ◌∷◌, Bool, true, false, not, ◌||◌, ◌==◌, ==_iff, if◌then◌else◌, ltb, leb, Bool-cases, inl, inr,
  arith,
}
use native.Mathlib.Nat.{mul_assoc, mul_comm, mul-le-mul}
use beelzebub.BigInt.{
  u32, minimum, Source, same, apart, contents, head, tail, drop, clear, Written, add_carry, mul_row,
  mul_rows, big_int_mul,
}
use beelzebub.BigInt.Words.{
  value, weight, AreWords, head-AreWords, tail-AreWords, value-lt, value-clear, clear-AreWords,
  drop-clear,
}
use beelzebub.BigInt.Adding.{Leaves}
use beelzebub.BigInt.Weights.{remainder}
use beelzebub.BigInt.Multiplying.Rows.{Added, mul_rows-Added}

-- What does not fit is lost, and the carry out of the last word is never seen: the words of `res` above
-- the lowest are 0 after the shift.
add_carry-high : (n : ℕ) (dst : List ℕ) (res : ℕ) → (add_carry (suc n) dst res).1 / 2 ^ 32 ≡ 0
unfolding add_carry
add_carry-high zero dst res = ground arith
add_carry-high (suc n) dst res =
    ground (arith, add_carry-high n (tail dst) ((res + head dst) % 2 ^ 64 / 2 ^ 32))

mul_row_silent : (m n current : ℕ) (ys dst : List ℕ) → (mul_row m n current ys dst).1 ≡ false
unfolding mul_row
mul_row_silent zero n current ys dst = refl
mul_row_silent (suc m) zero current ys dst = refl
mul_row_silent (suc m) (suc n) current ys dst =
    let added = add_carry (suc n) dst ((current * head ys) % 2 ^ 64) in
    let high = add_carry-high n dst ((current * head ys) % 2 ^ 64) in
    rw (high, mul_row_silent m n current (tail ys) (tail added.0)) refl

mul_rows_silent : (m n size2 : ℕ) (xs ys dst : List ℕ) → (mul_rows m n size2 xs ys dst).1 ≡ false
unfolding mul_rows
mul_rows_silent zero n size2 xs ys dst = refl
mul_rows_silent (suc m) zero size2 xs ys dst = refl
mul_rows_silent (suc m) (suc n) size2 xs ys dst = elim (Bool-cases (head xs == 0)) [
  | inl e ↦ rw (e, mul_rows_silent m n size2 (tail xs) ys (tail dst)) refl
  | inr e ↦
      let row = mul_row size2 (suc n) (head xs) ys dst in
      rw
        (
          e,
          mul_row_silent size2 (suc n) (head xs) ys dst,
          mul_rows_silent m n size2 (tail xs) ys (tail row.0),
        )
        refl
]

-- The loops from the carry in on.
record Product (n number : ℕ) (dst : List ℕ) (r : List ℕ × Bool) : Type 0 where
  exact : value n r.0 ≡ number % weight n
  silent : r.1 ≡ false
  leaves : Leaves n dst r.0

mul_rows-Product :
    (m limit size2 c : ℕ) (xs ys dst : List ℕ)
    → 0 < limit
    → c < 2 ^ 32
    → AreWords xs
    → AreWords ys
    → AreWords dst
    → Product limit
        (value m xs * value size2 ys + c)
        dst
        (mul_rows m limit size2 xs ys (c ∷ tail (clear limit dst)))
mul_rows-Product m zero size2 c xs ys dst some b h k l = absurd (omega arith)
mul_rows-Product m (suc n) size2 c xs ys dst some b h k l =
    let start = c ∷ tail (clear (suc n) dst) in
    let a =
      mul_rows-Added m (suc n) size2 xs ys start h k
        (b, clear-AreWords n (tail dst) (tail-AreWords dst l)) in
    let words = (mul_rows m (suc n) size2 xs ys start).0 in
    record {
      exact =
          remainder (value (suc n) words) (weight (suc n)) a.lost (value m xs * value size2 ys + c)
            (omega (arith, a.sum, value-clear n (tail dst))) (value-lt (suc n) words a.fits);
      silent = mul_rows_silent m (suc n) size2 xs ys start;
      leaves = record { fits = a.fits; rest = a.rest ∙ drop-clear n (tail dst) };
    }

bit-lt : (c : Bool) → (if c then 1 else 0) < 2 ^ 32
bit-lt true = omega arith
bit-lt false = omega arith

module _ (dst : List ℕ) (src1 src2 : Source) (size1 size2 max_size : ℕ) (cin : Bool)
    (small : size1 + size2 < 2 ^ 32) (words : AreWords dst) (words1 : AreWords (contents src1 dst))
    (words2 : AreWords (contents src2 dst)) where
  -- `BigIntMul` writes as many words as both sources have, but no more than `maxSize`. They are the
  -- product and the carry in, less what does not fit; the words behind keep. The result is false
  -- whether the product fits or not. A source may be the destination. The words have 32 bits, the
  -- sizes add up to a number of 32 bits that is not 0, and `maxSize` is not 0.
  pub big_int_mul-value :
      0 < size1 + size2
      → 0 < max_size
      → let r = big_int_mul dst src1 size1 src2 size2 max_size cin in
        (r.size ≡ minimum (size1 + size2) max_size)
        × (value r.size r.words
            ≡ (value size1 (contents src1 dst) * value size2 (contents src2 dst)
                + (if cin then 1 else 0))
              % weight r.size)
        × (r.overflow ≡ false)
        × Leaves r.size dst r.words
  unfolding big_int_mul
  big_int_mul-value some most =
      let xs = contents src1 dst in
      let ys = contents src2 dst in
      let v1 = value size1 xs in
      let v2 = value size2 ys in
      let c : ℕ = if cin then 1 else 0 in
      let limit = minimum (u32 (size1 + size2)) max_size in
      let whole : u32 (size1 + size2) ≡ size1 + size2 = omega arith in
      let left : 0 < limit = ground arith in
      elim (Bool-cases (ltb size2 size1)) [
        | inl e ↦
            let p =
              mul_rows-Product size2 limit size1 c ys xs dst left (bit-lt cin) words2 words1
                words in
            rw e (
              ap (λ n. minimum n max_size) whole,
              p.exact ∙ ap (λ n. (n + c) % weight limit) (mul_comm v2 v1),
              p.silent,
              p.leaves,
            )
        | inr e ↦
            let p =
              mul_rows-Product size1 limit size2 c xs ys dst left (bit-lt cin) words1 words2
                words in
            rw e (ap (λ n. minimum n max_size) whole, p.exact, p.silent, p.leaves)
      ]
