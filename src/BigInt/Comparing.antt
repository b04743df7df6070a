-- ===== src/BigInt/Comparing.antt =====
-- `BigIntCmp` of libs/common/src/utils/bigint.cpp, and that it compares the numbers.
use beelzebub.Common.{
  ℕ, zero, suc, ◌+◌, ◌-◌, ◌*◌, ◌^◌, ◌≤◌, ◌<◌, ◌≡◌, refl, sym, ap, ◌∙◌, List, Bool, true, false,
  ◌||◌, not, ◌==◌, ltb, ltb→lt, ltb→ge, if◌then◌else◌, compare, Ordering, Ordering-cases, ◌⊎◌,
  Bool-cases, inl, inr, arith,
}
use native.Mathlib.Nat.{mul-le-mul_left, mul-suc, mul_assoc}
use beelzebub.BigInt.{Source, same, apart, contents, head, tail, drop}
use beelzebub.BigInt.Words.{value, weight, AreWords, tail-AreWords, value-lt}

-- The loop over the words of the longer source that the shorter one has not: one of them is not 0.
unfoldable pub any_word : ℕ → List ℕ → Bool
any_word zero xs = false
any_word (suc n) xs = not (head xs == 0) || any_word n (tail xs)

-- The loop from `i` downwards. `lt`, `eq` and `gt` are -1, 0 and 1.
unfoldable pub compare_down : ℕ → List ℕ → List ℕ → Ordering
compare_down zero xs ys = Ordering.eq
compare_down (suc i) xs ys =
    let rest = compare_down i xs ys in
    elim (compare (head (drop i xs)) (head (drop i ys))) [
      | Ordering.gt ↦ Ordering.gt
      | Ordering.lt ↦ Ordering.lt
      | Ordering.eq ↦ rest
    ]

-- The right source may be the left one.
unfoldable pub compare_words : ℕ → List ℕ → Source → Ordering
unfolding compare_down
compare_words size left same = Ordering.eq
compare_words size left (apart right) = compare_down size left right

unfoldable pub big_int_cmp : List ℕ → ℕ → Source → ℕ → Ordering
unfolding any_word compare_words
big_int_cmp left size_l right size_r =
    if ltb size_r size_l
    then if any_word (size_l - size_r) (drop size_r left)
      then Ordering.gt
      else compare_words size_r left right
    else if ltb size_l size_r
    then if any_word (size_r - size_l) (drop size_l (contents right left))
      then Ordering.lt
      else compare_words size_l left right
    else compare_words size_l left right

-- The highest word counts last.
pub value-suc : (n : ℕ) (xs : List ℕ) → value (suc n) xs ≡ value n xs + weight n * head (drop n xs)
value-suc zero xs = omega arith
value-suc (suc n) xs =
    let ih = value-suc n (tail xs) in
    let x = head (drop n (tail xs)) in omega (arith, ih, mul_assoc (2 ^ 32) (weight n) x)

pub drop-AreWords : (n : ℕ) (xs : List ℕ) → AreWords xs → AreWords (drop n xs)
drop-AreWords zero xs h = h
drop-AreWords (suc n) xs h = drop-AreWords n (tail xs) (tail-AreWords xs h)

higher : (a b w x y : ℕ) → a < w → x < y → a + w * x < b + w * y
higher a b w x y l m =
    let step : w * suc x ≤ w * y = mul-le-mul_left w (omega arith) in omega (arith, mul-suc w x)

pub compare-lt : {a b : ℕ} → a < b → compare a b ≡ Ordering.lt
compare-lt h = ground arith

pub compare-gt : {a b : ℕ} → b < a → compare a b ≡ Ordering.gt
compare-gt h = ground arith

compare-shift : (a b c x y : ℕ) → x ≡ a + c → y ≡ b + c → compare a b ≡ compare x y
compare-shift a b c x y p q = ground arith

compare_down-compare :
    (n : ℕ) (xs ys : List ℕ)
    → AreWords xs
    → AreWords ys
    → compare_down n xs ys ≡ compare (value n xs) (value n ys)
unfolding compare_down
compare_down-compare zero xs ys h k = ground arith
compare_down-compare (suc n) xs ys h k =
    let a = value-lt n xs h in
    let b = value-lt n ys k in
    let x = head (drop n xs) in
    let y = head (drop n ys) in
    let p = value-suc n xs in
    let q = value-suc n ys in
    elim (Ordering-cases (compare x y)) [
      | inl l ↦
          let under : x < y = ground arith in
          let r = higher (value n xs) (value n ys) (weight n) x y a under in
          rw (l, compare_down) (sym (compare-lt (omega arith)))
      | inr (inl e) ↦
          let equal : x ≡ y = ground arith in
          let s = ap (λ (t : ℕ). weight n * t) equal in
          let ih = compare_down-compare n xs ys h k in
          rw (e, compare_down)
            (ih ∙ compare-shift _ _ _ _ _ p (q ∙ ap (λ t. value n ys + t) (sym s)))
      | inr (inr g) ↦
          let over : y < x = ground arith in
          let r = higher (value n ys) (value n xs) (weight n) y x b over in
          rw (g, compare_down) (sym (compare-gt (omega arith)))
    ]

any_word-none : (n : ℕ) (xs : List ℕ) → any_word n xs ≡ false → value n xs ≡ 0
unfolding any_word
any_word-none zero xs e = refl
any_word-none (suc n) xs e = ground (arith, any_word-none n (tail xs))

any_word-some : (n : ℕ) (xs : List ℕ) → any_word n xs ≡ true → 0 < value n xs
unfolding any_word
any_word-some zero xs e = ground arith
any_word-some (suc n) xs e = ground (arith, any_word-some n (tail xs))

-- The words from `n` on.
pub value-split :
    (n k : ℕ) (xs : List ℕ) → value (n + k) xs ≡ value n xs + weight n * value k (drop n xs)
value-split zero k xs = let e : 0 + k ≡ k = omega arith in omega (arith, ap (λ n. value n xs) e)
value-split (suc n) k xs =
    let e : suc n + k ≡ suc (n + k) = omega arith in
    omega (
      arith,
      ap (λ n. value n xs) e,
      value-split n k (tail xs),
      mul_assoc (2 ^ 32) (weight n) (value k (drop n (tail xs))),
    )

-- What the surplus of the longer source decides.
longer :
    (n m : ℕ) (xs : List ℕ)
    → n < m
    → ((any_word (m - n) (drop n xs) ≡ true) × (weight n ≤ value m xs))
      ⊎ ((any_word (m - n) (drop n xs) ≡ false) × (value m xs ≡ value n xs))
longer n m xs l =
    let e : n + (m - n) ≡ m = omega arith in
    let whole = ap (λ n. value n xs) e in
    let split = value-split n (m - n) xs in
    let t = value (m - n) (drop n xs) in
    elim (Bool-cases (any_word (m - n) (drop n xs))) [
      | inl y ↦
          let some = any_word-some (m - n) (drop n xs) y in
          let step : weight n * 1 ≤ weight n * t = mul-le-mul_left (weight n) (omega arith) in
          inl (y, omega arith)
      | inr y ↦
          let none = any_word-none (m - n) (drop n xs) y in
          inr (y, omega (arith, ap (λ (z : ℕ). weight n * z) none))
    ]

compare_words-compare :
    (n : ℕ) (xs : List ℕ) (right : Source)
    → AreWords xs
    → AreWords (contents right xs)
    → compare_words n xs right ≡ compare (value n xs) (value n (contents right xs))
unfolding compare_words
compare_words-compare n xs same h k = ground arith
compare_words-compare n xs (apart ys) h k = compare_down-compare n xs ys h k

-- `BigIntCmp` compares the numbers, whatever the sizes of the sources are, and also where both are one
-- array.
pub big_int_cmp-compare :
    (left : List ℕ) (size_l : ℕ) (right : Source) (size_r : ℕ)
    → AreWords left
    → AreWords (contents right left)
    → big_int_cmp left size_l right size_r
      ≡ compare (value size_l left) (value size_r (contents right left))
unfolding big_int_cmp
big_int_cmp-compare left size_l right size_r h k =
    let ys = contents right left in
    elim (Bool-cases (ltb size_r size_l)) [
      | inl e ↦ elim (longer size_r size_l left (ltb→lt _ _ e)) [
        | inl (y, big) ↦
            let small = value-lt size_r ys k in rw (e, y) (sym (compare-gt (omega arith)))
        | inr (y, even) ↦
            rw (e, y)
              (compare_words-compare size_r left right h k
                ∙ ap (λ n. compare n (value size_r ys)) (sym even))
      ]
      | inr e ↦ elim (Bool-cases (ltb size_l size_r)) [
        | inl f ↦ elim (longer size_l size_r ys (ltb→lt _ _ f)) [
          | inl (y, big) ↦
              let small = value-lt size_l left h in rw (e, f, y) (sym (compare-lt (omega arith)))
          | inr (y, even) ↦
              rw (e, f, y)
                (compare_words-compare size_l left right h k
                  ∙ ap (λ n. compare (value size_l left) n) (sym even))
        ]
        | inr f ↦
            let a = ltb→ge _ _ e in
            let b = ltb→ge _ _ f in
            let same_size : size_l ≡ size_r = omega arith in
            rw (e, f)
              (compare_words-compare size_l left right h k
                ∙ ap (λ n. compare (value size_l left) (value n ys)) same_size)
      ]
    ]
