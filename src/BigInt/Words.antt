-- ===== src/BigInt/Words.antt =====
-- The number that the first words of an array stand for.
use beelzebub.Common.{ℕ, zero, suc, ◌+◌, ◌*◌, ◌^◌, ◌<◌, ◌≡◌, refl, List, [], ◌∷◌, All, arith}
use beelzebub.BigInt.{head, tail, drop, clear}

-- The number of the first words.
abbrev pub value : ℕ → List ℕ → ℕ
value zero xs = 0
value (suc n) xs = head xs + 2 ^ 32 * value n (tail xs)

-- 2 ^ (32 * n).
abbrev pub weight : ℕ → ℕ
weight zero = 1
weight (suc n) = 2 ^ 32 * weight n

-- The words fit in 32 bits.
abbrev pub AreWords : List ℕ → Type 0
AreWords xs = All (λ x. x < 2 ^ 32) xs

pub head-AreWords : (xs : List ℕ) → AreWords xs → head xs < 2 ^ 32
head-AreWords [] h = omega arith
head-AreWords (x ∷ xs) h = h.0

pub tail-AreWords : (xs : List ℕ) → AreWords xs → AreWords (tail xs)
tail-AreWords [] h = tt
tail-AreWords (x ∷ xs) h = h.1

pub value-lt : (n : ℕ) (xs : List ℕ) → AreWords xs → value n xs < weight n
value-lt zero xs h = omega arith
value-lt (suc n) xs h = omega (arith, head-AreWords xs h, value-lt n (tail xs) (tail-AreWords xs h))

pub value-clear : (n : ℕ) (xs : List ℕ) → value n (clear n xs) ≡ 0
value-clear zero xs = refl
value-clear (suc n) xs = omega (arith, value-clear n (tail xs))

pub clear-AreWords : (n : ℕ) (xs : List ℕ) → AreWords xs → AreWords (clear n xs)
clear-AreWords zero xs h = h
clear-AreWords (suc n) xs h = (omega arith, clear-AreWords n (tail xs) (tail-AreWords xs h))

pub drop-clear : (n : ℕ) (xs : List ℕ) → drop n (clear n xs) ≡ drop n xs
drop-clear zero xs = refl
drop-clear (suc n) xs = drop-clear n (tail xs)
