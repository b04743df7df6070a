-- ===== src/BigInt/Shifting/Right.antt =====
-- What `BigIntShR` of libs/common/src/utils/bigint.cpp leaves, against a quotient.
use beelzebub.Common.{
  ℕ, zero, suc, ◌+◌, ◌-◌, ◌*◌, ◌/◌, ◌%◌, ◌^◌, ◌≤◌, ◌<◌, ◌≡◌, ◌⊎◌, refl, sym, subst, ap, ap₂, ◌∙◌,
  List, true, false, not, leb, ltb, ◌==◌, ==_iff, leb→le, Bool-cases, inl, inr, arith,
}
use Prim.Native.Nat.{bit_or}
use native.Mathlib.Nat.{
  mul_assoc, mul_comm, add-mul, pow-le-pow_right, mul-le-mul, mul-le-mul_left, mul-div-mul_right,
  div-eq_of_lt-le, div-eq_of_lt, div-div-eq-div-mul,
}
use beelzebub.BigInt.{u32, Source, contents, head, tail, drop, Written}
use beelzebub.BigInt.Words.{value, weight, AreWords, head-AreWords, tail-AreWords, value-lt}
use beelzebub.BigInt.Comparing.{value-suc, value-split, drop-AreWords}
use beelzebub.BigInt.Weights.{weight-pos, weight_mono, pow-add}
use beelzebub.BigInt.Shifting.{shift_down, trim, trimmed, big_int_shr}
use beelzebub.BigInt.Shifting.Bits.{pow-pos, bit_or-sum, high-lt, low_multiple}
use beelzebub.BigInt.Shifting.Left.{shifted-power}

window-lt : (x a : ℕ) → x < 2 ^ 32 → a ≤ 32 → x * 2 ^ a < 2 ^ 64
window-lt x a h l =
    let p : 2 ^ a ≤ 2 ^ 32 = pow-le-pow_right (omega arith) l in
    let q : x * 2 ^ a ≤ (2 ^ 32 - 1) * 2 ^ 32 =
      mul-le-mul {n₂ = 2 ^ 32 - 1} {m₂ = 2 ^ 32} (omega arith) p in
    omega arith

-- Both sides are the source, shifted up by `amount`. What is shifted in has no bit below 2 ^ a.
shift_down-value :
    (n a t : ℕ) (src dst : List ℕ)
    → AreWords src
    → a ≤ 32
    → let r = shift_down n a (2 ^ a * t) src dst in
      (value n r.0 * 2 ^ 32 + r.1 ≡ value n src * 2 ^ a + weight n * (2 ^ a * t))
      × ((s : ℕ) × (r.1 ≡ 2 ^ a * s))
unfolding shift_down
shift_down-value zero a t src dst h l = (omega arith, (t, refl))
shift_down-value (suc n) a t src dst h l =
    let x = head src in
    let top = window-lt x a (head-AreWords src h) l in
    let above = shift_down n a (2 ^ a * t) (tail src) (tail dst) in
    let (sum, (s, multiple)) =
      shift_down-value n a t (tail src) (tail dst) (tail-AreWords src h) l in
    let (k, low) = low_multiple x a l in
    let whole : (x * 2 ^ a) % 2 ^ 64 ≡ x * 2 ^ a = omega arith in
    let joined : bit_or ((x * 2 ^ a) % 2 ^ 64 / 2 ^ 32) above.1 ≡ x * 2 ^ a / 2 ^ 32 + above.1 =
      ap₂ (λ m o. bit_or (m / 2 ^ 32) o) whole multiple
      ∙ bit_or-sum a s (x * 2 ^ a / 2 ^ 32) (high-lt x a (head-AreWords src h))
      ∙ ap (λ (o : ℕ). x * 2 ^ a / 2 ^ 32 + o) (sym multiple) in
    (
      omega (
        arith,
        sum,
        joined,
        mul_assoc (2 ^ 32) (weight n) (2 ^ a * t),
        add-mul x (2 ^ 32 * value n (tail src)) (2 ^ a),
        mul_assoc (2 ^ 32) (value n (tail src)) (2 ^ a),
      ),
      (k, omega arith),
    )

shift_down-lt : (n a u : ℕ) (src dst : List ℕ) → u < 2 ^ 32 → (shift_down n a u src dst).1 < 2 ^ 32
unfolding shift_down
shift_down-lt zero a u src dst h = h
shift_down-lt (suc n) a u src dst h = omega arith

shift_down-none :
    (n a : ℕ) (src dst : List ℕ)
    → AreWords src
    → a ≤ 32
    → value n (shift_down n a 0 src dst).0 * 2 ^ 32 + (shift_down n a 0 src dst).1
      ≡ value n src * 2 ^ a
shift_down-none n a src dst h l =
    let z : 2 ^ a * 0 ≡ 0 = omega arith in
    subst
      (λ u.
        value n (shift_down n a u src dst).0 * 2 ^ 32 + (shift_down n a u src dst).1
        ≡ value n src * 2 ^ a + weight n * u)
      z (shift_down-value n a 0 src dst h l).0
    ∙ omega arith

-- The words that are trimmed are 0.
trim-value :
    (n : ℕ) (words : List ℕ)
    → n < 2 ^ 32
    → ((trim n words ≡ inl (2 ^ 32 - 1)) × (value n words ≡ 0))
      ⊎ ((k : ℕ) × (trim n words ≡ inr k)
          × (value k words ≡ value n words)
          × (0 < value n words)
          × (k ≤ n))
unfolding trim
trim-value zero words l = inl (refl, refl)
trim-value (suc n) words l =
    let top = value-suc n words in
    let x = head (drop n words) in
    let index : u32 (suc n + 2 ^ 32 - 1) ≡ n = omega arith in
    elim (Bool-cases (x == 0)) [
      | inl z ↦
          let less = ap (λ (k : ℕ). weight n * k) ((==_iff x 0).0 z) in
          elim (trim-value n words (omega arith)) [
            | inl (e, v) ↦ inl (rw (index, z, trim) e, omega arith)
            | inr (k, e, v, p, l) ↦
                inr (k, rw (index, z, trim) e, omega arith, omega arith, omega arith)
          ]
      | inr z ↦
          let some_bit : 0 < x = ground arith in
          let step : weight n * 1 ≤ weight n * x = mul-le-mul_left (weight n) some_bit in
          let w = weight-pos n in
          inr (suc n, rw (index, z, trim) refl, refl, omega arith, omega arith)
    ]

-- A number is shifted down by the power that it was shifted up by less.
quotient : (v r f up s : ℕ) → up + s ≡ 32 → v * 2 ^ 32 + r ≡ f * 2 ^ up → r < 2 ^ 32 → v ≡ f / 2 ^ s
quotient v r f up s e h l =
    let one = pow-pos up in
    let two : 2 ^ 32 ≡ 2 ^ s * 2 ^ up =
      let c : s + up ≡ 32 = omega arith in sym (ap (λ (k : ℕ). 2 ^ k) c) ∙ pow-add 2 s up in
    let back : v ≡ f * 2 ^ up / 2 ^ 32 = omega arith in
    back ∙ ap (λ (k : ℕ). f * 2 ^ up / k) two ∙ mul-div-mul_right f (2 ^ s) (omega arith)

-- The words from a place on.
value-drop :
    (p n : ℕ) (xs : List ℕ) → AreWords xs → value n (drop p xs) ≡ value (p + n) xs / weight p
value-drop p n xs h =
    let v = value n (drop p xs) in
    let low = value-lt p xs h in
    sym (
      div-eq_of_lt-le {k = v} (weight p) (omega (arith, value-split p n xs, mul_comm v (weight p)))
        (omega (arith, value-split p n xs, mul_comm v (weight p), add-mul v 1 (weight p))))

trimmed-cases :
    (n : ℕ) (r : List ℕ × ℕ) {v : ℕ}
    → n < 2 ^ 32
    → value n r.0 ≡ v
    → ((trimmed n r ≡ inl (2 ^ 32 - 1)) × (v ≡ 0))
      ⊎ ((w : Written) × (trimmed n r ≡ inr w)
          × (value w.size w.words ≡ v)
          × (w.size ≤ n)
          × ((w.size ≡ 0) ⊎ (0 < v)))
trimmed-cases n r {v} small e = elim (trim-value n r.0 small) [
  | inl (t, z) ↦ inl (rw (t, trimmed) refl, omega arith)
  | inr (k, t, z, p, l) ↦ inr (
    record { overflow = not (r.1 == 0); size = k; words = r.0 },
    rw (t, trimmed) refl,
    z ∙ e,
    l,
    inr (omega arith),
  )
]

pub big_int_shr-quotient :
    (dst : List ℕ) (src : Source) (size amount : ℕ)
    → AreWords (contents src dst)
    → size < 2 ^ 32
    → let v = value size (contents src dst) / 2 ^ amount in
      ((big_int_shr dst size src size amount ≡ inl (2 ^ 32 - 1)) × (v ≡ 0) × (amount / 32 < size))
      ⊎ ((r : Written) × (big_int_shr dst size src size amount ≡ inr r)
          × (value r.size r.words ≡ v)
          × (r.size ≤ size)
          × ((r.size ≡ 0) ⊎ (0 < v)))
unfolding big_int_shr
big_int_shr-quotient dst src size amount h fits =
    let xs = contents src dst in
    let places = amount / 32 in
    let up = 32 - amount % 32 in
    let from = drop places xs in
    elim (Bool-cases (leb size places)) [
      | inl e ↦
          let v = value-lt size xs h in
          let wide = weight_mono size places (leb→le _ _ e) in
          let bits = pow-pos (amount % 32) in
          let power = shifted-power amount in
          let step : weight places * 1 ≤ weight places * 2 ^ (amount % 32) =
            mul-le-mul_left (weight places) bits in
          inr (
            record { overflow = true; size = 0; words = dst },
            rw e refl,
            sym (div-eq_of_lt (omega arith)),
            omega arith,
            inl refl,
          )
      | inr e ↦
          let less : places < size = ground arith in
          let count = size - places in
          let r = shift_down count up 0 from dst in
          let exact : value count r.0 ≡ value size xs / 2 ^ amount =
            let whole : places + count ≡ size = omega arith in
            quotient (value count r.0) r.1 (value count from) up (amount % 32) (omega arith)
              (shift_down-none count up from dst (drop-AreWords places xs h) (omega arith))
              (shift_down-lt count up 0 from dst (omega arith))
            ∙ ap (λ (k : ℕ). k / 2 ^ (amount % 32))
                (value-drop places count xs h ∙ ap (λ k. value k xs / weight places) whole)
            ∙ div-div-eq-div-mul (value size xs) (weight places) (2 ^ (amount % 32))
            ∙ ap (λ (k : ℕ). value size xs / k) (shifted-power amount) in
          let reached : big_int_shr dst size src size amount ≡ trimmed count r =
            let even : ltb size size ≡ false = ground arith in
            let least : leb size size ≡ true = ground arith in
            let same_count : u32 (size + 2 ^ 32 - places) ≡ count = omega arith in
            rw (e, even, least) (ap (λ n. trimmed n (shift_down n up 0 from dst)) same_count) in
          elim (trimmed-cases count r (omega arith) exact) [
            | inl (n, z) ↦ inl (reached ∙ n, z, less)
            | inr (w, n, v, k, s) ↦ inr (w, reached ∙ n, v, omega arith, s)
          ]
    ]
