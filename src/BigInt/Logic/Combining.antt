-- ===== src/BigInt/Logic/Combining.antt =====
-- What `BigIntAnd`, `BigIntOr` and `BigIntXor` of libs/common/src/utils/bigint.cpp leave in each word.
use Prim.Native.Nat.{bit_and}
use beelzebub.Common.{
  ℕ, zero, suc, ◌+◌, ◌-◌, max, ◌≤◌, ◌<◌, ◌≡◌, refl, sym, ap, ◌∙◌, List, true, false, ◌&&◌, ltb,
  if◌then◌else◌, Bool-cases, ltb→lt, ltb→ge, inl, inr, arith,
}
use beelzebub.BigInt.{minimum, apart, head, tail, drop, clear}
use beelzebub.BigInt.Logic.{zip_words, copy_words, big_int_and, surplus, big_int_combine}

zip_words-inside :
    (f : ℕ → ℕ → ℕ) (n : ℕ) (xs ys dst : List ℕ) (rest : List ℕ → List ℕ) (i : ℕ)
    → i < n
    → head (drop i (zip_words f n xs ys dst rest)) ≡ f (head (drop i xs)) (head (drop i ys))
unfolding zip_words
zip_words-inside f zero xs ys dst rest i l = absurd (omega arith)
zip_words-inside f (suc n) xs ys dst rest zero l = refl
zip_words-inside f (suc n) xs ys dst rest (suc i) l =
    zip_words-inside f n (tail xs) (tail ys) (tail dst) rest i (omega arith)

zip_words-behind :
    (f : ℕ → ℕ → ℕ) (n : ℕ) (xs ys dst : List ℕ) (rest : List ℕ → List ℕ)
    → drop n (zip_words f n xs ys dst rest) ≡ rest (drop n dst)
unfolding zip_words
zip_words-behind f zero xs ys dst rest = refl
zip_words-behind f (suc n) xs ys dst rest = zip_words-behind f n (tail xs) (tail ys) (tail dst) rest

copy_words-inside :
    (n : ℕ) (xs dst : List ℕ) (rest : List ℕ → List ℕ) (i : ℕ)
    → i < n
    → head (drop i (copy_words n xs dst rest)) ≡ head (drop i xs)
unfolding copy_words
copy_words-inside zero xs dst rest i l = absurd (omega arith)
copy_words-inside (suc n) xs dst rest zero l = refl
copy_words-inside (suc n) xs dst rest (suc i) l =
    copy_words-inside n (tail xs) (tail dst) rest i (omega arith)

copy_words-behind :
    (n : ℕ) (xs dst : List ℕ) (rest : List ℕ → List ℕ)
    → drop n (copy_words n xs dst rest) ≡ rest (drop n dst)
unfolding copy_words
copy_words-behind zero xs dst rest = refl
copy_words-behind (suc n) xs dst rest = copy_words-behind n (tail xs) (tail dst) rest

clear-inside : (n : ℕ) (xs : List ℕ) (i : ℕ) → i < n → head (drop i (clear n xs)) ≡ 0
clear-inside zero xs i l = absurd (omega arith)
clear-inside (suc n) xs zero l = refl
clear-inside (suc n) xs (suc i) l = clear-inside n (tail xs) i (omega arith)

drop-drop : (m n : ℕ) (xs : List ℕ) → drop n (drop m xs) ≡ drop (m + n) xs
drop-drop zero n xs = let e : n ≡ 0 + n = omega arith in ap (λ k. drop k xs) e
drop-drop (suc m) n xs =
    let e : suc (m + n) ≡ suc m + n = omega arith in drop-drop m n (tail xs) ∙ ap (λ k. drop k xs) e

-- A word behind those that a loop copies, up to the end.
tail_word :
    (count rest j : ℕ) (xs dst : List ℕ)
    → j < count + rest
    → head (drop j (copy_words count xs dst (clear rest)))
      ≡ (if ltb j count then head (drop j xs) else 0)
tail_word count rest j xs dst l = elim (Bool-cases (ltb j count)) [
  | inl e ↦ rw e (copy_words-inside count xs dst (clear rest) j (ltb→lt _ _ e))
  | inr e ↦
      let past = ltb→ge _ _ e in
      let whole : count + (j - count) ≡ j = omega arith in
      rw e (
        ap (λ k. head (drop k (copy_words count xs dst (clear rest)))) (sym whole)
        ∙ ap head (sym (drop-drop count (j - count) (copy_words count xs dst (clear rest))))
        ∙ ap (λ ws. head (drop (j - count) ws)) (copy_words-behind count xs dst (clear rest))
        ∙ clear-inside rest (drop count dst) (j - count) (omega arith))
]

-- What one word of the destination becomes: of two sources, of the longer one, or 0.
abbrev pub combined : (ℕ → ℕ → ℕ) → (size1 size2 i : ℕ) → (xs ys : List ℕ) → ℕ
combined f size1 size2 i xs ys =
    if ltb i size1
    then if ltb i size2 then f (head (drop i xs)) (head (drop i ys)) else head (drop i xs)
    else if ltb i size2
    then head (drop i ys)
    else 0

zip_words-past :
    (f : ℕ → ℕ → ℕ) (n : ℕ) (xs ys dst : List ℕ) (rest : List ℕ → List ℕ) (i : ℕ)
    → n ≤ i
    → head (drop i (zip_words f n xs ys dst rest)) ≡ head (drop (i - n) (rest (drop n dst)))
zip_words-past f n xs ys dst rest i l =
    let whole : n + (i - n) ≡ i = omega arith in
    ap (λ k. head (drop k (zip_words f n xs ys dst rest))) (sym whole)
    ∙ ap head (sym (drop-drop n (i - n) (zip_words f n xs ys dst rest)))
    ∙ ap (λ ws. head (drop (i - n) ws)) (zip_words-behind f n xs ys dst rest)

surplus-word :
    (m n i rest : ℕ) (xs ys words : List ℕ)
    → minimum m n ≤ i
    → i < max m n + rest
    → head (drop (i - minimum m n) (surplus (minimum m n) m n xs ys (clear rest) words))
      ≡ (if ltb i m then head (drop i xs) else if ltb i n then head (drop i ys) else 0)
unfolding surplus
surplus-word m n i rest xs ys words l u =
    let limit = minimum m n in
    let whole : limit + (i - limit) ≡ i = omega arith in
    let from = λ (zs : List ℕ).
      ap head (drop-drop limit (i - limit) zs) ∙ ap (λ k. head (drop k zs)) whole in
    elim (Bool-cases (ltb limit m)) [
      | inl e ↦
          let t = tail_word (m - limit) rest (i - limit) (drop limit xs) words (ground arith) in
          let x = from xs in rw e (t ∙ ground arith)
      | inr e ↦ elim (Bool-cases (ltb limit n)) [
        | inl g ↦
            let t = tail_word (n - limit) rest (i - limit) (drop limit ys) words (ground arith) in
            let y = from ys in rw (e, g) (t ∙ ground arith)
        | inr g ↦
            let t = clear-inside rest words (i - limit) (ground arith) in
            rw (e, g) (t ∙ ground arith)
      ]
    ]

zip_words-combined :
    (f : ℕ → ℕ → ℕ) (dst xs ys : List ℕ) (m n i rest : ℕ)
    → i < max m n + rest
    → head (
        drop i (zip_words f (minimum m n) xs ys dst (surplus (minimum m n) m n xs ys (clear rest))))
      ≡ combined f m n i xs ys
zip_words-combined f dst xs ys m n i rest u =
    let limit = minimum m n in
    elim (Bool-cases (ltb i limit)) [
      | inl e ↦
          let x =
            zip_words-inside f limit xs ys dst (surplus limit m n xs ys (clear rest)) i
              (ltb→lt _ _ e) in
          let a : ltb i m ≡ true = ground arith in
          let b : ltb i n ≡ true = ground arith in rw (a, b) x
      | inr e ↦
          let past = ltb→ge _ _ e in
          zip_words-past f limit xs ys dst (surplus limit m n xs ys (clear rest)) i past
          ∙ surplus-word m n i rest xs ys (drop limit dst) past u
          ∙ ground arith
    ]

-- `BigIntOr` and `BigIntXor` into an array that is neither source: a word of the destination combines
-- the words of both sources, or is that of the longer one, or 0 where both have ended. No source is
-- longer than the destination. Likewise `BigIntAnd`, with 0 wherever one source has ended.
pub big_int_combine-words :
    (f : ℕ → ℕ → ℕ) (dst xs ys : List ℕ) (size_d size1 size2 i : ℕ)
    → size1 ≤ size_d
    → size2 ≤ size_d
    → i < size_d
    → (head (drop i (big_int_combine f dst size_d (apart xs) size1 (apart ys) size2))
        ≡ combined f size1 size2 i xs ys)
      × (head (drop i (big_int_and dst size_d (apart xs) size1 (apart ys) size2)) ≡ (
          if ltb i size1 && ltb i size2 then bit_and (head (drop i xs)) (head (drop i ys)) else 0))
unfolding big_int_combine big_int_and
big_int_combine-words f dst xs ys size_d size1 size2 i p q l =
    let m : minimum size1 size_d ≡ size1 = ground arith in
    let n : minimum size2 size_d ≡ size2 = ground arith in
    (
      rw (m, n)
          (zip_words-combined f dst xs ys size1 size2 i (size_d - max size1 size2) (ground arith)),
      elim (Bool-cases (ltb i (minimum size1 size2))) [
        | inl e ↦
            let both : (ltb i size1 && ltb i size2) ≡ true = ground arith in
            rw both (zip_words-inside bit_and (minimum size1 size2) xs ys dst _ i (ltb→lt _ _ e))
        | inr e ↦
            let one : (ltb i size1 && ltb i size2) ≡ false = ground arith in
            let past = ltb→ge _ _ e in
            rw one (
              zip_words-past bit_and (minimum size1 size2) xs ys dst
                (clear (size_d - minimum size1 size2)) i past
              ∙ clear-inside (size_d - minimum size1 size2) (drop (minimum size1 size2) dst)
                  (i - minimum size1 size2) (ground arith))
      ],
    )
