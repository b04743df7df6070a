-- ===== src/BigInt/Powers.antt =====
-- `BigIntGetPow10` of libs/common/src/utils/bigint.cpp, with its tables.
pub mod Tables
use beelzebub.Common.{
  ℕ, zero, suc, ◌+◌, ◌-◌, ◌*◌, ◌/◌, ◌%◌, ◌^◌, ◌≤◌, ◌<◌, ◌≡◌, ◌⊎◌, refl, sym, subst, ap, ◌∙◌, List,
  [], ◌∷◌, length, Bool, true, false, ◌||◌, leb, ltb, ◌==◌, ==_iff, if◌then◌else◌, leb→le, ltb→ge,
  Bool-cases, inl, inr, arith,
}
use native.Mathlib.Nat.{
  mul_assoc, mul_comm, mul_right_comm, mul-mul-mul_comm, mul-suc, add-mul, pow-suc, pow-zero,
  add-mul-mod_self_left, mod-add-div, mod-eq_of_lt,
}
use beelzebub.BigInt.{
  u32, Source, same, apart, head, tail, drop, clear, minimum, Written, big_int_mul,
}
use beelzebub.BigInt.Words.{
  value, weight, AreWords, head-AreWords, tail-AreWords, value-lt, value-clear, clear-AreWords,
}
use beelzebub.BigInt.Multiplying.{big_int_mul-value}
use beelzebub.BigInt.Weights.{
  weight_mono, weight-add, pow-add, square-pow, pow_even, pow_odd, pow-pow, mod-mul, weight-pos,
  limited,
}
use beelzebub.BigInt.Powers.Tables.{powers_of_10_small, PowerOf10, powers_of_10_big}

-- The loop over `exponentBig`. It does not come to the end of the table.
unfoldable pub multiply_powers : List PowerOf10 → (max_size exponent size : ℕ) → List ℕ → ℕ × List ℕ
unfolding big_int_mul
multiply_powers [] max_size exponent size dst = (size, dst)
multiply_powers (p ∷ ps) max_size exponent size dst =
    let product = big_int_mul dst same size (apart p.1) p.0 max_size false in
    let odd = multiply_powers ps max_size (exponent / 2) product.size product.words in
    let even = multiply_powers ps max_size (exponent / 2) size dst in
    if exponent == 0 then (size, dst) else if exponent % 2 == 1 then odd else even

-- `overflow` is what it returns: whether it has written the power.
unfoldable pub big_int_get_pow10 : List ℕ → (size max_size exponent : ℕ) → Written
big_int_get_pow10 dst size max_size exponent =
    let start = head (drop (exponent % 8) powers_of_10_small) ∷ clear (max_size - 1) (tail dst) in
    let done = multiply_powers powers_of_10_big max_size (exponent / 8) 1 start in
    if leb 512 exponent || ltb max_size 1
    then record { overflow = false; size = size; words = dst }
    else record { overflow = true; size = done.0; words = done.1 }

-- Each table holds the square of the one before.
AreSquares : List PowerOf10 → ℕ → Type 0
AreSquares [] p = Unit {0}
AreSquares (t ∷ ts) p =
    (value t.0 t.1 ≡ p) × AreWords t.1 × (0 < t.0) × (t.0 < 2 ^ 16) × AreSquares ts (p * p)

tables-AreSquares : AreSquares powers_of_10_big (10 ^ 8)
unfolding AreSquares
tables-AreSquares = omega arith

-- What the loop makes of a number that counts modulo the weight of all words.
record Raised (most number : ℕ) (r : ℕ × List ℕ) : Type 0 where
  exact : value r.0 r.1 ≡ number % weight most
  within : r.0 ≤ most
  fits : AreWords r.1

unraised :
    (most number p e size : ℕ) (dst : List ℕ)
    → e ≡ 0
    → size ≤ most
    → AreWords dst
    → value size dst ≡ number % weight most
    → Raised most (number * p ^ e) (size, dst)
unraised most number p e size dst z l h v =
    let whole : number ≡ number * p ^ e =
      omega (arith, ap (λ (k : ℕ). number * p ^ k) z, ap (λ (k : ℕ). number * k) (pow-zero p)) in
    record { exact = v ∙ ap (λ (n : ℕ). n % weight most) whole; within = l; fits = h }

multiply_powers-Raised :
    (ts : List PowerOf10) (p most e size number : ℕ) (dst : List ℕ)
    → AreSquares ts p
    → 0 < most
    → most + 2 ^ 16 ≤ 2 ^ 32
    → e < 2 ^ length ts
    → 0 < size
    → size ≤ most
    → AreWords dst
    → value size dst ≡ number % weight most
    → Raised most (number * p ^ e) (multiply_powers ts most e size dst)
unfolding multiply_powers AreSquares
multiply_powers-Raised [] p most e size number dst sq some room small s l h v =
    unraised most number p e size dst (omega arith) l h v
multiply_powers-Raised (t ∷ ts) p most e size number dst sq some room small s l h v =
    let w = weight most in
    let m =
      big_int_mul-value dst same (apart t.1) size t.0 most false (omega arith) h h sq.1
        (omega arith) some in
    let r = big_int_mul dst same size (apart t.1) t.0 most false in
    let whole : u32 (size + t.0) ≡ size + t.0 = omega arith in
    let zeroless : value size dst * value t.0 t.1 + 0 ≡ value size dst * value t.0 t.1 =
      omega arith in
    let exact : value r.size r.words ≡ number * p % w =
      m.1
      ∙ ap (λ (n : ℕ). n % weight (minimum (u32 (size + t.0)) most)) zeroless
      ∙ ap (λ (n : ℕ). value size dst * value t.0 t.1 % weight (minimum n most)) whole
      ∙ limited size t.0 (value size dst) (value t.0 t.1) most (value-lt size dst h)
          (value-lt t.0 t.1 sq.1)
      ∙ ap (λ (n : ℕ). n * value t.0 t.1 % w) v
      ∙ ap (λ (n : ℕ). number % w * n % w) sq.0
      ∙ mod-mul number p w in
    let half : e / 2 < 2 ^ length ts = omega (arith, pow-suc 2 (length ts)) in
    let odd =
      multiply_powers-Raised ts (p * p) most (e / 2) r.size (number * p) r.words sq.4 some room half
        (ground arith) (ground arith) m.3.fits exact in
    let even =
      multiply_powers-Raised ts (p * p) most (e / 2) size number dst sq.4 some room half s l h v in
    elim (Bool-cases (e == 0)) [
      | inl z ↦ rw z (unraised most number p e size dst ((==_iff e 0).0 z) l h v)
      | inr n ↦ elim (Bool-cases (e % 2 == 1)) [
        | inl o ↦
            rw (n, o)
              (subst (λ k. Raised most k (multiply_powers ts most (e / 2) r.size r.words))
                (mul_assoc number p ((p * p) ^ (e / 2))
                  ∙ ap (λ (k : ℕ). number * k) (pow_odd p e o))
                odd)
        | inr o ↦
            rw (n, o)
              (subst (λ k. Raised most k (multiply_powers ts most (e / 2) size dst))
                (ap (λ (k : ℕ). number * k) (pow_even p e o)) even)
      ]
    ]

small_powers :
    (k : ℕ) → k < 8 → let n = head (drop k powers_of_10_small) in (n ≡ 10 ^ k) × (n < 2 ^ 32)
small_powers zero l = (refl, omega arith)
small_powers (suc zero) l = (refl, omega arith)
small_powers (suc (suc zero)) l = (refl, omega arith)
small_powers (suc (suc (suc zero))) l = (refl, omega arith)
small_powers (suc (suc (suc (suc zero)))) l = (refl, omega arith)
small_powers (suc (suc (suc (suc (suc zero))))) l = (refl, omega arith)
small_powers (suc (suc (suc (suc (suc (suc zero)))))) l = (refl, omega arith)
small_powers (suc (suc (suc (suc (suc (suc (suc zero))))))) l = (refl, omega arith)
small_powers (suc (suc (suc (suc (suc (suc (suc (suc k)))))))) l = absurd (omega arith)

-- The same, once it is clear that it writes.
written_power :
    (dst : List ℕ) (most e : ℕ)
    → AreWords dst
    → 0 < most
    → most + 2 ^ 16 ≤ 2 ^ 32
    → e < 512
    → let start = head (drop (e % 8) powers_of_10_small) ∷ clear (most - 1) (tail dst) in
      Raised most (10 ^ e) (multiply_powers powers_of_10_big most (e / 8) 1 start)
written_power dst most e h some room l =
    let (same_power, fits) = small_powers (e % 8) (omega arith) in
    let n = head (drop (e % 8) powers_of_10_small) in
    let start = n ∷ clear (most - 1) (tail dst) in
    let wide = weight_mono 1 most (omega arith) in
    let small : n < weight most = omega arith in
    let begins : value 1 start ≡ 10 ^ (e % 8) % weight most =
      omega (arith, sym (mod-eq_of_lt small) ∙ ap (λ (k : ℕ). k % weight most) same_power) in
    let r =
      multiply_powers-Raised powers_of_10_big (10 ^ 8) most (e / 8) 1 (10 ^ (e % 8)) start
        tables-AreSquares some room (omega arith) (omega arith) (omega arith)
        (fits, clear-AreWords (most - 1) (tail dst) (tail-AreWords dst h)) begins in
    let whole : e % 8 + 8 * (e / 8) ≡ e = omega arith in
    let number : 10 ^ (e % 8) * (10 ^ 8) ^ (e / 8) ≡ 10 ^ e =
      ap (λ (k : ℕ). 10 ^ (e % 8) * k) (pow-pow 10 8 (e / 8))
      ∙ sym (pow-add 10 (e % 8) (8 * (e / 8)))
      ∙ ap (λ (k : ℕ). 10 ^ k) whole in
    subst (λ k. Raised most k (multiply_powers powers_of_10_big most (e / 8) 1 start)) number r

-- `BigIntGetPow10` writes the power of 10, less what does not fit in the array, for an exponent below
-- 512 and an array that is not empty; otherwise it returns false and writes nothing. The
-- words have 32 bits, and `maxSize` is at most 2^32 - 2^16.
pub big_int_get_pow10-power :
    (dst : List ℕ) (size max_size exponent : ℕ)
    → AreWords dst
    → max_size + 2 ^ 16 ≤ 2 ^ 32
    → let r = big_int_get_pow10 dst size max_size exponent in
      (0 < max_size
        × (exponent < 512)
        × (r.overflow ≡ true)
        × (r.size ≤ max_size)
        × (value r.size r.words ≡ 10 ^ exponent % weight max_size))
      ⊎ (((max_size ≡ 0) ⊎ (512 ≤ exponent))
          × (r ≡ record { overflow = false; size = size; words = dst }))
unfolding big_int_get_pow10
big_int_get_pow10-power dst size max_size exponent h room = elim (Bool-cases (leb 512 exponent)) [
  | inl e ↦ inr (inr (leb→le _ _ e), rw (e, ◌||◌) refl)
  | inr e ↦ elim (Bool-cases (ltb max_size 1)) [
    | inl f ↦ inr (inl (ground arith), rw (e, f, ◌||◌) refl)
    | inr f ↦
        let some : 0 < max_size = ltb→ge _ _ f in
        let small : exponent < 512 = ground arith in
        let w = written_power dst max_size exponent h some room small in
        inl (some, small, rw (e, f, ◌||◌) refl, rw (e, f, ◌||◌) w.within, rw (e, f, ◌||◌) w.exact)
  ]
]
