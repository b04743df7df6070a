-- ===== src/BigInt/Logic.antt =====
-- `BigIntAnd`, `BigIntOr`, `BigIntXor` and `BigIntNot` of libs/common/src/utils/bigint.cpp, word by word.
pub mod Combining
use Prim.Native.Nat.{bit_and, bit_or, bit_xor}
use beelzebub.Common.{
  ℕ, zero, suc, ◌+◌, ◌-◌, ◌^◌, max, ◌≤◌, ◌<◌, ◌≡◌, refl, sym, ap, ◌∙◌, List, ◌∷◌, Bool, true, false,
  ◌&&◌, leb, ltb, if◌then◌else◌, Bool-cases, ltb→lt, ltb→ge, inl, inr, dec_lt, arith,
}
use beelzebub.BigInt.{minimum, Source, same, apart, contents, head, tail, drop, clear}

-- A loop over the words of two sources, and what follows it from the next word on.
unfoldable pub zip_words :
    (ℕ → ℕ → ℕ) → (count : ℕ) → (xs ys dst : List ℕ) → (List ℕ → List ℕ) → List ℕ
zip_words f zero xs ys dst rest = rest dst
zip_words f (suc n) xs ys dst rest =
    f (head xs) (head ys) ∷ zip_words f n (tail xs) (tail ys) (tail dst) rest

unfoldable pub copy_words : (count : ℕ) → (xs dst : List ℕ) → (List ℕ → List ℕ) → List ℕ
copy_words zero xs dst rest = rest dst
copy_words (suc n) xs dst rest = head xs ∷ copy_words n (tail xs) (tail dst) rest

unfoldable pub big_int_and2 : List ℕ → (size_d : ℕ) → Source → (size_s : ℕ) → List ℕ
unfolding zip_words
big_int_and2 dst size_d src size_s =
    let n = minimum size_s size_d in
    zip_words bit_and n dst (contents src dst) dst (clear (size_d - n))

unfoldable pub big_int_and :
    List ℕ → (size_d : ℕ) → Source → (size1 : ℕ) → Source → (size2 : ℕ) → List ℕ
unfolding big_int_and2 zip_words
big_int_and dst size_d same size1 src2 size2 = big_int_and2 dst (minimum size_d size1) src2 size2
big_int_and dst size_d (apart xs) size1 same size2 =
    big_int_and2 dst (minimum size_d size2) (apart xs) size1
big_int_and dst size_d (apart xs) size1 (apart ys) size2 =
    let limit = minimum size1 size2 in zip_words bit_and limit xs ys dst (clear (size_d - limit))

-- `BigIntOr2` and `BigIntXor2`, which leave the words of the destination that the source has not.
unfoldable pub big_int_combine2 :
    (ℕ → ℕ → ℕ) → List ℕ → (size_d : ℕ) → Source → (size_s : ℕ) → List ℕ
unfolding zip_words
big_int_combine2 f dst size_d src size_s =
    zip_words f (minimum size_s size_d) dst (contents src dst) dst (λ rest. rest)

-- The words that the longer source has more.
unfoldable pub surplus : (limit m n : ℕ) → (xs ys : List ℕ) → (List ℕ → List ℕ) → List ℕ → List ℕ
unfolding copy_words
surplus limit m n xs ys rest words =
    if ltb limit m
    then copy_words (m - limit) (drop limit xs) words rest
    else if ltb limit n
    then copy_words (n - limit) (drop limit ys) words rest
    else rest words

-- The body that `BigIntOr` and `BigIntXor` share.
unfoldable pub big_int_combine :
    (ℕ → ℕ → ℕ) → List ℕ → (size_d : ℕ) → Source → (size1 : ℕ) → Source → (size2 : ℕ) → List ℕ
unfolding big_int_combine2 zip_words surplus
big_int_combine f dst size_d same size1 src2 size2 =
    big_int_combine2 f dst (minimum size_d size1) src2 size2
big_int_combine f dst size_d (apart xs) size1 same size2 =
    big_int_combine2 f dst (minimum size_d size2) (apart xs) size1
big_int_combine f dst size_d (apart xs) size1 (apart ys) size2 =
    let m = minimum size1 size_d in
    let n = minimum size2 size_d in
    let limit = minimum m n in
    zip_words f limit xs ys dst (surplus limit m n xs ys (clear (size_d - max m n)))

abbrev pub big_int_or : List ℕ → (size_d : ℕ) → Source → (size1 : ℕ) → Source → (size2 : ℕ) → List ℕ
big_int_or = big_int_combine bit_or

abbrev pub big_int_xor :
    List ℕ → (size_d : ℕ) → Source → (size1 : ℕ) → Source → (size2 : ℕ) → List ℕ
big_int_xor = big_int_combine bit_xor

-- `BigIntNot`.
unfoldable pub big_int_not : List ℕ → (size_d : ℕ) → Source → (size_s : ℕ) → List ℕ
unfolding zip_words
big_int_not dst size_d src size_s =
    let xs = contents src dst in
    zip_words (λ x y. 2 ^ 32 - 1 - x) (minimum size_d size_s) xs xs dst (λ rest. rest)
