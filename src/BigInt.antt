-- ===== src/BigInt.antt =====
-- The functions of libs/common/src/utils/bigint.cpp and libs/common/amd64/src/utils/bigint.asm on
-- arrays of 32-bit words, lowest first. An array is the list of its words from a place on, and a loop
-- walks it by tails; past its end a list reads as 0.
pub mod Words
pub mod Adding
pub mod Multiplying
pub mod Comparing
pub mod Weights
pub mod Powers
pub mod Shifting
pub mod Number
pub mod Logic
pub mod Tests
use beelzebub.Common.{
  ℕ, zero, suc, ◌+◌, ◌-◌, ◌*◌, ◌/◌, ◌%◌, ◌^◌, Bool, true, false, not, ◌&&◌, ◌||◌, ltb, leb, ◌==◌,
  if◌then◌else◌, List, [], ◌∷◌, compare, Ordering,
}

abbrev pub head : List ℕ → ℕ
head [] = 0
head (x ∷ xs) = x

abbrev pub tail : List ℕ → List ℕ
tail [] = []
tail (x ∷ xs) = xs

abbrev pub drop : ℕ → List ℕ → List ℕ
drop zero xs = xs
drop (suc n) xs = drop n (tail xs)

-- A source array: the destination itself, or one that does not meet it.
pub data Source : Type 0 where
  same : Source
  apart : List ℕ → Source

-- The words of a source at the call. The loops below read each word before they write it.
abbrev pub contents : Source → List ℕ → List ℕ
contents same dst = dst
contents (apart xs) dst = xs

-- `uint32_t`.
abbrev pub u32 : ℕ → ℕ
u32 n = n % 2 ^ 32

abbrev pub minimum : ℕ → ℕ → ℕ
minimum a b = if leb a b then a else b

-- Two words, read as one of 64 bits.
abbrev pub qword : List ℕ → ℕ
qword xs = head xs + 2 ^ 32 * head (tail xs)

-- `.two_at_once` with 64-bit additions and `.lt_2` with a last one of 32 bits. The carry is 0 or 1.
unfoldable pub add_words : ℕ → (dst xs ys : List ℕ) → ℕ → ℕ × List ℕ
add_words zero dst xs ys carry = (carry, dst)
add_words (suc zero) dst xs ys carry =
    let s = head xs + head ys + carry in (s / 2 ^ 32, u32 s ∷ tail dst)
add_words (suc (suc n)) dst xs ys carry =
    let s = qword xs + qword ys + carry in
    let rest = add_words n (tail (tail dst)) (tail (tail xs)) (tail (tail ys)) (s / 2 ^ 64) in
    (rest.0, u32 s ∷ u32 (s / 2 ^ 32) ∷ rest.1)

unfoldable pub big_int_add2 : List ℕ → Source → ℕ → ℕ → ℕ × List ℕ
unfolding add_words
big_int_add2 dst src size cin = add_words size dst dst (contents src dst) cin

-- `BigIntAdd`: with one source in the destination the other is added to it.
unfoldable pub big_int_add : List ℕ → (src1 src2 : Source) → (size cin : ℕ) → ℕ × List ℕ
unfolding big_int_add2 add_words
big_int_add dst same src2 size cin = big_int_add2 dst src2 size cin
big_int_add dst (apart xs) same size cin = big_int_add2 dst (apart xs) size cin
big_int_add dst (apart xs) (apart ys) size cin = add_words size dst xs ys cin

-- The same with `sbb`.
abbrev pub borrow : (a b : ℕ) → ℕ
borrow a b = if ltb a b then 1 else 0

unfoldable pub sub_words : ℕ → (dst xs ys : List ℕ) → ℕ → ℕ × List ℕ
sub_words zero dst xs ys carry = (carry, dst)
sub_words (suc zero) dst xs ys carry =
    let b = head ys + carry in (borrow (head xs) b, u32 (head xs + 2 ^ 32 - b) ∷ tail dst)
sub_words (suc (suc n)) dst xs ys carry =
    let b = qword ys + carry in
    let s = (qword xs + 2 ^ 64 - b) % 2 ^ 64 in
    let rest =
      sub_words n (tail (tail dst)) (tail (tail xs)) (tail (tail ys)) (borrow (qword xs) b) in
    (rest.0, u32 s ∷ (s / 2 ^ 32) ∷ rest.1)

unfoldable pub big_int_sub2 : List ℕ → Source → ℕ → ℕ → ℕ × List ℕ
unfolding sub_words
big_int_sub2 dst src size cin = sub_words size dst dst (contents src dst) cin

-- `BigIntSub`: with the second source in the destination it is the first that is subtracted from it.
unfoldable pub big_int_sub : List ℕ → (src1 src2 : Source) → (size cin : ℕ) → ℕ × List ℕ
unfolding big_int_sub2 sub_words
big_int_sub dst same src2 size cin = big_int_sub2 dst src2 size cin
big_int_sub dst (apart xs) same size cin = big_int_sub2 dst (apart xs) size cin
big_int_sub dst (apart xs) (apart ys) size cin = sub_words size dst xs ys cin

-- `memset` of the first words to 0.
abbrev pub clear : ℕ → List ℕ → List ℕ
clear zero dst = dst
clear (suc n) dst = 0 ∷ clear n (tail dst)

-- The loop over `l`: `left` is `limit - l`, and the list is `dst` from `l` on. Also what is left in `res`.
unfoldable pub add_carry : (left : ℕ) → List ℕ → ℕ → List ℕ × ℕ
add_carry zero dst res = (dst, res)
add_carry (suc n) dst res =
    let sum = (res + head dst) % 2 ^ 64 in
    let rest = add_carry n (tail dst) (sum / 2 ^ 32) in
    if res == 0 then (dst, res) else (u32 sum ∷ rest.0, rest.1)

-- The loop over `j` and `k`: `size` is `size2 - j`, `left` is `limit - k`.
unfoldable pub mul_row : (size left current : ℕ) → (ys dst : List ℕ) → List ℕ × Bool
unfolding add_carry
mul_row zero left current ys dst = (dst, false)
mul_row (suc m) zero current ys dst = (dst, false)
mul_row (suc m) (suc n) current ys dst =
    let added = add_carry (suc n) dst ((current * head ys) % 2 ^ 64) in
    let rest = mul_row m n current (tail ys) (tail added.0) in
    (head added.0 ∷ rest.0, not (added.1 / 2 ^ 32 == 0) || rest.1)

-- The loop over `i`: `size` is `size1 - i`, `left` is `limit - i`. From `limit` on no round writes.
unfoldable pub mul_rows : (size left size2 : ℕ) → (xs ys dst : List ℕ) → List ℕ × Bool
unfolding mul_row
mul_rows zero left size2 xs ys dst = (dst, false)
mul_rows (suc m) zero size2 xs ys dst = (dst, false)
mul_rows (suc m) (suc n) size2 xs ys dst =
    let row = if head xs == 0 then (dst, false) else mul_row size2 (suc n) (head xs) ys dst in
    let rest = mul_rows m n size2 (tail xs) ys (tail row.0) in
    (head row.0 ∷ rest.0, row.1 || rest.1)

-- What a function leaves in an array: what it returns, its size, its words.
pub record Written : Type 0 where
  pub overflow : Bool
  pub size : ℕ
  pub words : List ℕ

-- The shorter source is the one of the outer loop.
unfoldable pub big_int_mul :
    List ℕ → Source → (size1 : ℕ) → Source → (size2 max_size : ℕ) → (cin : Bool) → Written
unfolding mul_rows
big_int_mul dst src1 size1 src2 size2 max_size cin =
    let limit = minimum (u32 (size1 + size2)) max_size in
    let xs = contents src1 dst in
    let ys = contents src2 dst in
    let start = (if cin then 1 else 0) ∷ tail (clear limit dst) in
    let done =
      if ltb size2 size1
      then mul_rows size2 limit size1 ys xs start
      else mul_rows size1 limit size2 xs ys start in
    record { overflow = done.1; size = limit; words = done.0 }
