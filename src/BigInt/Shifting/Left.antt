-- ===== src/BigInt/Shifting/Left.antt =====
-- What `BigIntShL` of libs/common/src/utils/bigint.cpp leaves, against a product.
use beelzebub.Common.{
  ℕ, ◌+◌, ◌-◌, ◌*◌, ◌/◌, ◌%◌, ◌^◌, ◌≤◌, ◌<◌, ◌≡◌, ◌⊎◌, refl, sym, subst, ap, ◌∙◌, List, true, false,
  leb, ◌==◌, ==_iff, leb→le, if◌then◌else◌, Bool-cases, inl, inr, arith,
}
use native.Mathlib.Nat.{mul-mod_right}
use beelzebub.BigInt.{minimum, Source, same, apart, contents, drop}
use beelzebub.BigInt.Words.{value, weight, AreWords, value-clear, clear-AreWords}
use beelzebub.BigInt.Comparing.{drop-AreWords}
use beelzebub.BigInt.Weights.{weight-add, pow-add}
use beelzebub.BigInt.Shifting.{move_up, pad, shift_up, keep_overflow, big_int_shl}
use beelzebub.BigInt.Weights.{weight-pow}
use beelzebub.BigInt.Shifting.Moves.{value-copy, copy-AreWords, drop-move_up}
use beelzebub.BigInt.Shifting.Raising.{Holds, Shifted-Holds, shift_up-Shifted}

-- The number shifted, in words.
pub shifted-power : (amount : ℕ) → weight (amount / 32) * 2 ^ (amount % 32) ≡ 2 ^ amount
shifted-power amount =
    let parts : 32 * (amount / 32) + amount % 32 ≡ amount = omega arith in
    ap (λ (n : ℕ). n * 2 ^ (amount % 32)) (weight-pow (amount / 32))
    ∙ sym (pow-add 2 (32 * (amount / 32)) (amount % 32))
    ∙ ap (λ (n : ℕ). 2 ^ n) parts

-- Beyond the array nothing is left.
nothing_left : (most places a v : ℕ) → most ≤ places → 0 ≡ v * (weight places * 2 ^ a) % weight most
nothing_left most places a v l =
    let e : most + (places - most) ≡ places = omega arith in
    let w = weight most in
    let u = weight (places - most) in
    let t : w * (v * (u * 2 ^ a)) ≡ v * (weight places * 2 ^ a) =
      regroup w v u (2 ^ a)
      ∙ ap (λ (k : ℕ). v * (k * 2 ^ a)) (sym (weight-add most (places - most)) ∙ ap weight e) in
    sym (mul-mod_right w (v * (u * 2 ^ a))) ∙ ap (λ (k : ℕ). k % w) t
  where
    regroup : (w v u b : ℕ) → w * (v * (u * b)) ≡ v * (w * u * b)
    regroup w v u b = grind arith

in_place :
    (dst : List ℕ) (src : Source) (size most amount : ℕ)
    → AreWords dst
    → (src ≡ same) ⊎ (amount < 32)
    → amount / 32 < most
    → (amount / 32 == 0) ≡ false
    → let places = amount / 32 in
      let size_d = minimum most (size + places) in
      let moved = move_up places (size_d - places) (contents src dst) dst in
      let r =
        shift_up
          (size_d - places)
          (amount % 32)
          0
          (drop places (contents src moved))
          (drop places moved) in
      Holds most
        (value size (contents src dst) * 2 ^ amount)
        (keep_overflow size_d most r.1 (pad places r.0))
in_place dst (apart xs) size most amount h w l z =
    absurd (elim w [ inl e ↦ cc | inr e ↦ ground arith ])
in_place dst same size most amount h w l z =
    let places = amount / 32 in
    let a = amount % 32 in
    let size_d = minimum most (size + places) in
    let count = size_d - places in
    let moved = move_up places count dst dst in
    let here = drop-move_up places count dst dst in
    let words : AreWords (drop places moved) =
      subst AreWords (sym here)
        (copy-AreWords count dst (drop places dst) h (drop-AreWords places dst h)) in
    let s =
      shift_up-Shifted places count size a dst (drop places moved) (drop places moved) words words
        (omega arith) (ground arith)
        (ap (value count) here ∙ value-copy count dst (drop places dst)) in
    Shifted-Holds places count size a amount size_d most dst
      (shift_up count a 0 (drop places moved) (drop places moved)) s (shifted-power amount)
      (ground arith) (ground arith) (λ m. ground arith)

shl_beyond-Holds :
    (dst : List ℕ) (src : Source) (size most amount v : ℕ)
    → AreWords dst
    → leb most (amount / 32) ≡ true
    → Holds most (v * 2 ^ amount) (big_int_shl dst src size most amount)
unfolding big_int_shl
shl_beyond-Holds dst src size most amount v h e = rw e record {
  exact =
      value-clear most dst
      ∙ nothing_left most (amount / 32) (amount % 32) v (leb→le _ _ e)
      ∙ ap (λ (k : ℕ). v * k % weight most) (shifted-power amount);
  within = omega arith;
  fits = clear-AreWords most dst h;
}

shl-Holds :
    (dst : List ℕ) (src : Source) (size max_size amount : ℕ)
    → AreWords dst
    → AreWords (contents src dst)
    → (src ≡ same) ⊎ (amount < 32)
    → Holds max_size
        (value size (contents src dst) * 2 ^ amount)
        (big_int_shl dst src size max_size amount)
unfolding big_int_shl
shl-Holds dst src size most amount h k w =
    let places = amount / 32 in
    let a = amount % 32 in
    let xs = contents src dst in
    let size_d = minimum most (size + places) in
    elim (Bool-cases (leb most places)) [
      | inl e ↦ shl_beyond-Holds dst src size most amount (value size xs) h e
      | inr e ↦ elim (Bool-cases (places == 0)) [
        | inl z ↦
            let none : places ≡ 0 = (==_iff places 0).0 z in
            let s =
              shift_up-Shifted 0 size_d size a xs xs dst k h (omega arith) (ground arith) refl in
            rw (e, z)
              (Shifted-Holds 0 size_d size a amount size_d most xs (shift_up size_d a 0 xs dst) s
                (ap (λ n. weight n * 2 ^ a) (sym none) ∙ shifted-power amount) (omega arith)
                (ground arith) (λ m. ground arith))
        | inr z ↦ rw (e, z) (in_place dst src size most amount h w (ground arith) z)
      ]
    ]

shl_apart-Holds :
    (dst xs : List ℕ) (size max_size amount : ℕ)
    → AreWords dst
    → AreWords xs
    → 32 ≤ amount
    → amount / 32 < max_size
    → Holds max_size
        (value size (drop (amount / 32) xs) * 2 ^ amount)
        (big_int_shl dst (apart xs) size max_size amount)
unfolding big_int_shl
shl_apart-Holds dst xs size most amount h k l below =
    let places = amount / 32 in
    let a = amount % 32 in
    let size_d = minimum most (size + places) in
    let count = size_d - places in
    let moved = move_up places count xs dst in
    let into : AreWords (drop places moved) =
      subst AreWords (sym (drop-move_up places count xs dst))
        (copy-AreWords count xs (drop places dst) k (drop-AreWords places dst h)) in
    let s =
      shift_up-Shifted places count size a (drop places xs) (drop places xs) (drop places moved)
        (drop-AreWords places xs k) into (omega arith) (ground arith) refl in
    let some : (places == 0) ≡ false = ground arith in
    let fit : leb most places ≡ false = ground arith in
    rw (fit, some)
      (Shifted-Holds places count size a amount size_d most (drop places xs)
        (shift_up count a 0 (drop places xs) (drop places moved)) s (shifted-power amount)
        (ground arith) (ground arith) (λ m. ground arith))

-- The words that are shifted.
abbrev pub shifted_source : Source → (amount : ℕ) → List ℕ → List ℕ
shifted_source same amount dst = dst
shifted_source (apart xs) amount dst = if leb 32 amount then drop (amount / 32) xs else xs

-- `BigIntShL` leaves the product with the power of 2, less what does not fit in `sizeM` words, in no
-- more than as many words of 32 bits. But out of place, by 32 bits and more, what it shifts is not the
-- source but what stands in it from word `amnt / 32` on: it never reads the lower words.
-- The words have 32 bits.
pub big_int_shl-Holds :
    (dst : List ℕ) (src : Source) (size max_size amount : ℕ)
    → AreWords dst
    → AreWords (contents src dst)
    → Holds max_size
        (value size (shifted_source src amount dst) * 2 ^ amount)
        (big_int_shl dst src size max_size amount)
big_int_shl-Holds dst same size most amount h k = shl-Holds dst same size most amount h k (inl refl)
big_int_shl-Holds dst (apart xs) size most amount h k = elim (Bool-cases (leb 32 amount)) [
  | inr e ↦ rw e (shl-Holds dst (apart xs) size most amount h k (inr (ground arith)))
  | inl e ↦ elim (Bool-cases (leb most (amount / 32))) [
    | inl b ↦
        rw e (
          shl_beyond-Holds dst (apart xs) size most amount (value size (drop (amount / 32) xs)) h b)
    | inr b ↦ rw e (shl_apart-Holds dst xs size most amount h k (leb→le _ _ e) (ground arith))
  ]
]
