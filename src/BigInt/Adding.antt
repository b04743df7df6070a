-- ===== src/BigInt/Adding.antt =====
-- `BigIntAdd` and `BigIntSub` of libs/common/amd64/src/utils/bigint.asm against addition and subtraction.
use beelzebub.Common.{
  ℕ, zero, suc, ◌+◌, ◌-◌, ◌*◌, ◌/◌, ◌%◌, ◌^◌, ◌≤◌, ◌<◌, ◌≡◌, refl, List, ltb, Bool-cases, ltb→lt,
  ltb→ge, inl, inr, arith,
}
use native.Mathlib.Nat.{mul_assoc}
use beelzebub.BigInt.{
  Source, same, apart, contents, tail, drop, qword, borrow, add_words, big_int_add2, big_int_add,
  sub_words, big_int_sub2, big_int_sub,
}
use beelzebub.BigInt.Words.{value, weight, AreWords, head-AreWords, tail-AreWords}

add_words-value :
    (n : ℕ) (dst xs ys : List ℕ) (c : ℕ)
    → let r = add_words n dst xs ys c in value n r.1 + weight n * r.0 ≡ value n xs + value n ys + c
unfolding add_words
add_words-value zero dst xs ys c = omega arith
add_words-value (suc zero) dst xs ys c = omega arith
add_words-value (suc (suc n)) dst xs ys c =
    let s = qword xs + qword ys + c in
    let c' = (add_words n (tail (tail dst)) (tail (tail xs)) (tail (tail ys)) (s / 2 ^ 64)).0 in
    let ih = add_words-value n (tail (tail dst)) (tail (tail xs)) (tail (tail ys)) (s / 2 ^ 64) in
    omega (arith, ih, mul_assoc (2 ^ 32) (2 ^ 32 * weight n) c', mul_assoc (2 ^ 32) (weight n) c')

pub borrow-le : (a b : ℕ) → borrow a b ≤ 1
borrow-le a b = ground arith

-- `sbb` on 64 bits.
subtract_borrow :
    (a b : ℕ) → a < 2 ^ 64 → b ≤ 2 ^ 64 → (a + 2 ^ 64 - b) % 2 ^ 64 + b ≡ a + 2 ^ 64 * borrow a b
subtract_borrow a b p q = elim (Bool-cases (ltb a b)) [
  | inl l ↦ let t = ltb→lt a b l in rw l (omega arith)
  | inr g ↦ let t = ltb→ge a b g in rw g (omega arith)
]

sub_words-value :
    (n : ℕ) (dst xs ys : List ℕ) (c : ℕ)
    → AreWords xs
    → AreWords ys
    → c ≤ 1
    → let r = sub_words n dst xs ys c in
      (value n r.1 + value n ys + c ≡ value n xs + weight n * r.0) × (r.0 ≤ 1)
unfolding sub_words
sub_words-value zero dst xs ys c p q one = (omega arith, one)
sub_words-value (suc zero) dst xs ys c p q one =
    let x = head-AreWords xs p in let y = head-AreWords ys q in ground arith
sub_words-value (suc (suc n)) dst xs ys c p q one =
    let b = qword ys + c in
    let c' = borrow (qword xs) b in
    let x0 = head-AreWords xs p in
    let x1 = head-AreWords (tail xs) (tail-AreWords xs p) in
    let y0 = head-AreWords ys q in
    let y1 = head-AreWords (tail ys) (tail-AreWords ys q) in
    let ih =
      sub_words-value n (tail (tail dst)) (tail (tail xs)) (tail (tail ys)) c'
        (tail-AreWords (tail xs) (tail-AreWords xs p))
        (tail-AreWords (tail ys) (tail-AreWords ys q)) (borrow-le (qword xs) b) in
    let r = (sub_words n (tail (tail dst)) (tail (tail xs)) (tail (tail ys)) c').0 in
    let word = subtract_borrow (qword xs) b (omega arith) (omega arith) in
    (omega (arith, mul_assoc (2 ^ 32) (2 ^ 32 * weight n) r, mul_assoc (2 ^ 32) (weight n) r), ih.1)

add_words-drop :
    (n : ℕ) (dst xs ys : List ℕ) (c : ℕ) → drop n (add_words n dst xs ys c).1 ≡ drop n dst
unfolding add_words
add_words-drop zero dst xs ys c = refl
add_words-drop (suc zero) dst xs ys c = refl
add_words-drop (suc (suc n)) dst xs ys c = add_words-drop n (tail (tail dst)) _ _ _

sub_words-drop :
    (n : ℕ) (dst xs ys : List ℕ) (c : ℕ) → drop n (sub_words n dst xs ys c).1 ≡ drop n dst
unfolding sub_words
sub_words-drop zero dst xs ys c = refl
sub_words-drop (suc zero) dst xs ys c = refl
sub_words-drop (suc (suc n)) dst xs ys c = sub_words-drop n (tail (tail dst)) _ _ _

add_words-AreWords :
    (n : ℕ) (dst xs ys : List ℕ) (c : ℕ) → AreWords dst → AreWords (add_words n dst xs ys c).1
unfolding add_words
add_words-AreWords zero dst xs ys c h = h
add_words-AreWords (suc zero) dst xs ys c h = (omega arith, tail-AreWords dst h)
add_words-AreWords (suc (suc n)) dst xs ys c h =
    let t = tail-AreWords (tail dst) (tail-AreWords dst h) in
    (omega arith, (omega arith, add_words-AreWords n (tail (tail dst)) _ _ _ t))

sub_words-AreWords :
    (n : ℕ) (dst xs ys : List ℕ) (c : ℕ) → AreWords dst → AreWords (sub_words n dst xs ys c).1
unfolding sub_words
sub_words-AreWords zero dst xs ys c h = h
sub_words-AreWords (suc zero) dst xs ys c h = (omega arith, tail-AreWords dst h)
sub_words-AreWords (suc (suc n)) dst xs ys c h =
    let t = tail-AreWords (tail dst) (tail-AreWords dst h) in
    (omega arith, (omega arith, sub_words-AreWords n (tail (tail dst)) _ _ _ t))

-- What an operation leaves of `dst`: words, changed in the first `size` of them only.
pub record Leaves (size : ℕ) (dst words : List ℕ) : Type 0 where
  pub fits : AreWords words
  pub rest : drop size words ≡ drop size dst

-- `BigIntAdd` of `size` words: the words that it writes and the carry that it returns are the sum of
-- both numbers and the carry in, whichever source the destination is. The words behind keep.
pub big_int_add-value :
    (dst : List ℕ) (src1 src2 : Source) (size cin : ℕ)
    → AreWords dst
    → let r = big_int_add dst src1 src2 size cin in
      (value size r.1 + weight size * r.0
        ≡ value size (contents src1 dst) + value size (contents src2 dst) + cin)
      × Leaves size dst r.1
unfolding big_int_add big_int_add2
big_int_add-value dst same src2 size cin h = (
  add_words-value size dst dst (contents src2 dst) cin,
  record { fits = add_words-AreWords size dst _ _ cin h; rest = add_words-drop size dst _ _ cin },
)
big_int_add-value dst (apart xs) same size cin h = (
  omega (arith, add_words-value size dst dst xs cin),
  record { fits = add_words-AreWords size dst _ _ cin h; rest = add_words-drop size dst _ _ cin },
)
big_int_add-value dst (apart xs) (apart ys) size cin h = (
  add_words-value size dst xs ys cin,
  record { fits = add_words-AreWords size dst _ _ cin h; rest = add_words-drop size dst _ _ cin },
)

-- The words that are subtracted from, and those that are subtracted.
abbrev pub minuend : (src1 src2 : Source) → List ℕ → List ℕ
minuend (apart xs) same dst = dst
minuend (apart xs) (apart ys) dst = xs
minuend same src2 dst = dst

abbrev pub subtrahend : (src1 src2 : Source) → List ℕ → List ℕ
subtrahend (apart xs) same dst = xs
subtrahend (apart xs) (apart ys) dst = ys
subtrahend same src2 dst = contents src2 dst

-- `BigIntSub` of `size` words: the words that it writes are the first number less the second and the
-- borrow in, with the borrow that it returns; the words behind keep. But where only the second source is
-- the destination, it is the first that is subtracted from the second.
pub big_int_sub-value :
    (dst : List ℕ) (src1 src2 : Source) (size cin : ℕ)
    → AreWords dst
    → AreWords (contents src1 dst)
    → AreWords (contents src2 dst)
    → cin ≤ 1
    → let r = big_int_sub dst src1 src2 size cin in
      (value size r.1 + value size (subtrahend src1 src2 dst) + cin
        ≡ value size (minuend src1 src2 dst) + weight size * r.0)
      × (r.0 ≤ 1)
      × Leaves size dst r.1
unfolding big_int_sub big_int_sub2
big_int_sub-value dst same src2 size cin h p q one =
    let s = sub_words-value size dst dst (contents src2 dst) cin h q one in
    (
      s.0,
      s.1,
      record {
        fits = sub_words-AreWords size dst _ _ cin h;
        rest = sub_words-drop size dst _ _ cin;
      },
    )
big_int_sub-value dst (apart xs) same size cin h p q one =
    let s = sub_words-value size dst dst xs cin h p one in
    (
      s.0,
      s.1,
      record {
        fits = sub_words-AreWords size dst _ _ cin h;
        rest = sub_words-drop size dst _ _ cin;
      },
    )
big_int_sub-value dst (apart xs) (apart ys) size cin h p q one =
    let s = sub_words-value size dst xs ys cin p q one in
    (
      s.0,
      s.1,
      record {
        fits = sub_words-AreWords size dst _ _ cin h;
        rest = sub_words-drop size dst _ _ cin;
      },
    )
