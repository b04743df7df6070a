-- ===== src/BigInt/Shifting/Raising.antt =====
-- The loop of `BigIntShL` in libs/common/src/utils/bigint.cpp and the word it leaves over.
use beelzebub.Common.{
  ℕ, zero, suc, ◌+◌, ◌-◌, ◌*◌, ◌/◌, ◌%◌, ◌^◌, ◌≤◌, ◌<◌, ◌≡◌, sym, ap, ap₂, ◌∙◌, List, ltb, ◌==◌,
  ==_iff, ltb→ge, ltb→lt, Bool-cases, inl, inr, arith,
}
use native.Mathlib.Nat.{mul_assoc, mul-le-mul, add-mul, pow-le-pow_right}
use beelzebub.BigInt.{head, tail, drop, Written}
use beelzebub.BigInt.Words.{value, weight, AreWords, head-AreWords, tail-AreWords, value-lt}
use beelzebub.BigInt.Weights.{remainder}
use beelzebub.BigInt.Comparing.{value-split}
use beelzebub.BigInt.Weights.{weight_mono, weight-add}
use beelzebub.BigInt.Shifting.{pad, put, shift_up, keep_overflow}
use beelzebub.BigInt.Shifting.Moves.{value-pad, pad-AreWords, value-put, put-AreWords}

-- A word shifted by fewer than 32 bits.
window-lt : (x a : ℕ) → x < 2 ^ 32 → a ≤ 31 → x * 2 ^ a + 2 ^ 32 ≤ 2 ^ 64
window-lt x a h l =
    let p : 2 ^ a ≤ 2 ^ 31 = pow-le-pow_right (omega arith) l in
    let q : x * 2 ^ a ≤ (2 ^ 32 - 1) * 2 ^ 31 =
      mul-le-mul {n₂ = 2 ^ 32 - 1} {m₂ = 2 ^ 31} (omega arith) p in
    omega arith

shift_up-value :
    (n a c : ℕ) (src dst : List ℕ)
    → AreWords src
    → AreWords dst
    → a < 32
    → c < 2 ^ 32
    → let r = shift_up n a c src dst in
      (value n r.0 + weight n * r.1 ≡ value n src * 2 ^ a + c) × AreWords r.0 × (r.1 < 2 ^ 32)
unfolding shift_up
shift_up-value zero a c src dst h k l b = (omega arith, k, b)
shift_up-value (suc n) a c src dst h k l b =
    let top = window-lt (head src) a (head-AreWords src h) (omega arith) in
    let window = (head src * 2 ^ a) % 2 ^ 64 + c in
    let ih =
      shift_up-value n a (window / 2 ^ 32) (tail src) (tail dst) (tail-AreWords src h)
        (tail-AreWords dst k) l (omega arith) in
    let r = (shift_up n a (window / 2 ^ 32) (tail src) (tail dst)).1 in
    (
      omega (
        arith,
        ih.0,
        mul_assoc (2 ^ 32) (weight n) r,
        add-mul (head src) (2 ^ 32 * value n (tail src)) (2 ^ a),
        mul_assoc (2 ^ 32) (value n (tail src)) (2 ^ a),
      ),
      (omega arith, ih.1),
      ih.2,
    )

-- A number in an array, modulo the weight of all the array's words.
pub record Holds (most number : ℕ) (r : Written) : Type 0 where
  pub exact : value r.size r.words ≡ number % weight most
  pub within : r.size ≤ most
  pub fits : AreWords r.words

pub keep_overflow-Holds :
    (size most over number q : ℕ) (words : List ℕ)
    → AreWords words
    → over < 2 ^ 32
    → size ≤ most
    → (size < most → q ≡ over)
    → value size words + weight size * q ≡ number
    → Holds most number (keep_overflow size most over words)
keep_overflow-Holds size most over number q words h b l same_q e =
    let v = value-lt size words h in
    elim (Bool-cases (ltb size most)) [
      | inl s ↦
          let less = ltb→lt _ _ s in
          let wide = weight_mono (suc size) most less in
          let narrow = weight_mono size most l in
          let qs = ap (λ (k : ℕ). weight size * k) (same_q less) in
          elim (Bool-cases (over == 0)) [
            | inl z ↦ rw z record {
              exact =
                  let none = ap (λ (k : ℕ). weight size * k) ((==_iff over 0).0 z) in
                  remainder (value size words) (weight most) 0 number (omega arith) (omega arith);
              within = l;
              fits = h;
            }
            | inr z ↦
                rw (z, s)
                  record {
                    exact =
                        let next : size + 1 ≡ suc size = omega arith in
                        let w = put-AreWords size over words b h in
                        let last = value-lt (suc size) (put size over words) w in
                        ap (λ k. value k (put size over words)) next
                        ∙ remainder (value (suc size) (put size over words)) (weight most) 0 number
                            (omega (arith, value-put size over words)) (omega arith);
                    within = omega arith;
                    fits = put-AreWords size over words b h;
                  }
          ]
      | inr s ↦
          let full : size ≡ most = let g = ltb→ge _ _ s in omega arith in
          let whole : value size words ≡ number % weight most =
            remainder (value size words) (weight size) q number e v
            ∙ ap (λ k. number % weight k) full in
          elim (Bool-cases (over == 0)) [
            | inl z ↦ rw z record { exact = whole; within = l; fits = h }
            | inr z ↦ rw (z, s) record { exact = whole; within = l; fits = h }
          ]
    ]

-- The words from a place on, shifted.
pub record Shifted (places count size a : ℕ) (src : List ℕ) (r : List ℕ × ℕ) : Type 0 where
  lost : ℕ
  sum :
      value (places + count) (pad places r.0) + weight (places + count) * lost
      ≡ value size src * (weight places * 2 ^ a)
  whole : count ≡ size → lost ≡ r.1
  fits : AreWords (pad places r.0)
  last : r.1 < 2 ^ 32

spread_product :
    (p c v o a n t : ℕ) → v + c * o ≡ n * a → p * v + p * c * (o + t * a) ≡ (n + c * t) * (p * a)
spread_product p c v o a n t h = grind (arith, ap (λ (k : ℕ). p * k) h)

pub shift_up-Shifted :
    (places count size a : ℕ) (src from into : List ℕ)
    → AreWords from
    → AreWords into
    → a < 32
    → count ≤ size
    → value count from ≡ value count src
    → Shifted places count size a src (shift_up count a 0 from into)
shift_up-Shifted places count size a src from into h k l c e =
    let s = shift_up-value count a 0 from into h k l (omega arith) in
    let r = shift_up count a 0 from into in
    let split : count + (size - count) ≡ size = omega arith in
    let t = value (size - count) (drop count src) in
    record {
      lost = r.1 + t * 2 ^ a;
      sum =
          ap₂ ◌+◌ (value-pad places count r.0)
            (ap (λ (k : ℕ). k * (r.1 + t * 2 ^ a)) (weight-add places count))
          ∙ spread_product (weight places) (weight count) (value count r.0) r.1 (2 ^ a)
              (value count src) t (omega (arith, s.0, ap (λ (k : ℕ). k * 2 ^ a) e))
          ∙ ap (λ (k : ℕ). k * (weight places * 2 ^ a))
              (sym (value-split count (size - count) src) ∙ ap (λ k. value k src) split);
      whole = λ q.
          let z : size - count ≡ 0 = omega arith in
          omega (arith, ap (λ k. value k (drop count src) * 2 ^ a) z);
      fits = pad-AreWords places r.0 s.1;
      last = s.2;
    }

pub Shifted-Holds :
    (places count size a amount size_d most : ℕ) (src : List ℕ) (r : List ℕ × ℕ)
    → Shifted places count size a src r
    → weight places * 2 ^ a ≡ 2 ^ amount
    → size_d ≡ places + count
    → size_d ≤ most
    → (size_d < most → count ≡ size)
    → Holds most (value size src * 2 ^ amount) (keep_overflow size_d most r.1 (pad places r.0))
Shifted-Holds places count size a amount size_d most src r s power parts l full =
    keep_overflow-Holds size_d most r.1 (value size src * 2 ^ amount) s.lost (pad places r.0) s.fits
      s.last l (λ m. s.whole (full m))
      (ap (λ k. value k (pad places r.0) + weight k * s.lost) parts
        ∙ s.sum
        ∙ ap (λ (k : ℕ). value size src * k) power)
