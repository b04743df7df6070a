-- ===== src/BigInt/Shifting/Moves.antt =====
-- Words moved, copied and set in arrays, as `BigIntShL` of libs/common/src/utils/bigint.cpp does.
use beelzebub.Common.{ℕ, zero, suc, ◌+◌, ◌*◌, ◌^◌, ◌<◌, ◌≡◌, refl, ap, List, arith}
use native.Mathlib.Nat.{mul_assoc}
use beelzebub.BigInt.{tail, drop}
use beelzebub.BigInt.Words.{value, weight, AreWords, head-AreWords, tail-AreWords}
use beelzebub.BigInt.Shifting.{copy, move_up, pad, put}

pub value-pad : (p n : ℕ) (xs : List ℕ) → value (p + n) (pad p xs) ≡ weight p * value n xs
value-pad zero n xs = let e : 0 + n ≡ n = omega arith in omega (arith, ap (λ k. value k xs) e)
value-pad (suc p) n xs =
    let e : suc p + n ≡ suc (p + n) = omega arith in
    omega (
      arith,
      ap (λ k. value k (pad (suc p) xs)) e,
      value-pad p n xs,
      mul_assoc (2 ^ 32) (weight p) (value n xs),
    )

pub pad-AreWords : (p : ℕ) (xs : List ℕ) → AreWords xs → AreWords (pad p xs)
pad-AreWords zero xs h = h
pad-AreWords (suc p) xs h = (omega arith, pad-AreWords p xs h)

pub value-put : (n v : ℕ) (xs : List ℕ) → value (suc n) (put n v xs) ≡ value n xs + weight n * v
value-put zero v xs = omega arith
value-put (suc n) v xs = omega (arith, value-put n v (tail xs), mul_assoc (2 ^ 32) (weight n) v)

pub put-AreWords : (n v : ℕ) (xs : List ℕ) → v < 2 ^ 32 → AreWords xs → AreWords (put n v xs)
put-AreWords zero v xs l h = (l, tail-AreWords xs h)
put-AreWords (suc n) v xs l h =
    (head-AreWords xs h, put-AreWords n v (tail xs) l (tail-AreWords xs h))

pub value-copy : (n : ℕ) (src dst : List ℕ) → value n (copy n src dst) ≡ value n src
value-copy zero src dst = refl
value-copy (suc n) src dst = omega (arith, value-copy n (tail src) (tail dst))

pub copy-AreWords :
    (n : ℕ) (src dst : List ℕ) → AreWords src → AreWords dst → AreWords (copy n src dst)
copy-AreWords zero src dst h k = k
copy-AreWords (suc n) src dst h k = (
  head-AreWords src h,
  copy-AreWords n (tail src) (tail dst) (tail-AreWords src h) (tail-AreWords dst k),
)

pub drop-move_up :
    (p n : ℕ) (src dst : List ℕ) → drop p (move_up p n src dst) ≡ copy n src (drop p dst)
drop-move_up zero n src dst = refl
drop-move_up (suc p) n src dst = drop-move_up p n src (tail dst)
