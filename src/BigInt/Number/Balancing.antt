-- ===== src/BigInt/Number/Balancing.antt =====
-- The numbers of `BigUInt` in sysheaders/common/beel/utils/bigint.hpp, `Balance` and a carry out.
use beelzebub.Common.{
  ℕ, zero, suc, ◌+◌, ◌-◌, ◌*◌, ◌%◌, ◌≤◌, ◌<◌, ◌≡◌, refl, sym, ap, ◌∙◌, List, ◌&&◌, ltb, ◌==◌,
  ==_iff, ltb→ge, ltb→lt, if◌then◌else◌, Bool-cases, dec_lt, inl, inr, arith,
}
use native.Mathlib.Nat.{mul-le-mul_left}
use beelzebub.BigInt.{tail}
use beelzebub.BigInt.Words.{value, weight, AreWords, head-AreWords, tail-AreWords, value-lt}
use beelzebub.BigInt.Weights.{remainder}
use beelzebub.BigInt.Weights.{weight_mono}
use beelzebub.BigInt.Shifting.{put}
use beelzebub.BigInt.Shifting.Moves.{value-put, put-AreWords}
use beelzebub.BigInt.Number.{BigUInt, Balanced, zero_from, balance, with_carry}

-- The number that an object stands for.
abbrev pub number : BigUInt → ℕ
number n = value n.current_size n.data_words

-- Its words fit, and its size is no more than `MaxSize`.
pub record IsNumber (max_size : ℕ) (n : BigUInt) : Type 0 where
  pub words : AreWords n.data_words
  pub within : n.current_size ≤ max_size

pub number-lt : {m : ℕ} (n : BigUInt) → IsNumber m n → number n < weight n.current_size
number-lt n i = value-lt n.current_size n.data_words i.words

pub value-zero_from : (k n : ℕ) (xs : List ℕ) → value (k + n) (zero_from k n xs) ≡ value k xs
value-zero_from zero zero xs = refl
value-zero_from zero (suc n) xs =
    let e : 0 + suc n ≡ suc (0 + n) = omega arith in
    omega (arith, ap (λ k. value k (zero_from 0 (suc n) xs)) e, value-zero_from zero n (tail xs))
value-zero_from (suc k) n xs =
    let e : suc k + n ≡ suc (k + n) = omega arith in
    omega (arith, ap (λ j. value j (zero_from (suc k) n xs)) e, value-zero_from k n (tail xs))

pub zero_from-AreWords : (k n : ℕ) (xs : List ℕ) → AreWords xs → AreWords (zero_from k n xs)
zero_from-AreWords zero zero xs h = h
zero_from-AreWords zero (suc n) xs h =
    (omega arith, zero_from-AreWords zero n (tail xs) (tail-AreWords xs h))
zero_from-AreWords (suc k) n xs h =
    (head-AreWords xs h, zero_from-AreWords k n (tail xs) (tail-AreWords xs h))

pub zero_from-below : (k n : ℕ) (xs : List ℕ) → value k (zero_from k n xs) ≡ value k xs
zero_from-below zero n xs = refl
zero_from-below (suc k) n xs = omega (arith, zero_from-below k n (tail xs))

-- `Balance` changes neither number.
pub record Balances (m : ℕ) (l r : BigUInt) (b : Balanced) : Type 0 where
  pub left : value b.size b.left.data_words ≡ number l
  pub right : value b.size b.right.data_words ≡ number r
  pub words_left : AreWords b.left.data_words
  pub words_right : AreWords b.right.data_words
  pub kept_left : number b.left ≡ number l
  pub kept_right : number b.right ≡ number r
  pub within : b.size ≤ m
  pub size : b.size ≡ (if ltb r.current_size l.current_size then l.current_size else r.current_size)

pub balance-Balances :
    {m : ℕ} (l r : BigUInt) → IsNumber m l → IsNumber m r → Balances m l r (balance l r)
unfolding balance
balance-Balances l r i j = elim (Bool-cases (ltb r.current_size l.current_size)) [
  | inl e ↦
      let less = ltb→lt _ _ e in
      let s : r.current_size + (l.current_size - r.current_size) ≡ l.current_size = omega arith in
      rw e record {
        left = refl;
        right =
            ap
              (λ k.
                value k (zero_from r.current_size (l.current_size - r.current_size) r.data_words))
              (sym s)
            ∙ value-zero_from r.current_size (l.current_size - r.current_size) r.data_words;
        kept_left = refl;
        kept_right = zero_from-below r.current_size _ r.data_words;
        within = i.within;
        words_left = i.words;
        words_right = zero_from-AreWords r.current_size _ r.data_words j.words;
        size = rw e refl;
      }
  | inr e ↦
      let less = ltb→ge _ _ e in
      let s : l.current_size + (r.current_size - l.current_size) ≡ r.current_size = omega arith in
      rw e record {
        left =
            ap
              (λ k.
                value k (zero_from l.current_size (r.current_size - l.current_size) l.data_words))
              (sym s)
            ∙ value-zero_from l.current_size (r.current_size - l.current_size) l.data_words;
        right = refl;
        kept_left = zero_from-below l.current_size _ l.data_words;
        kept_right = refl;
        within = j.within;
        words_left = zero_from-AreWords l.current_size _ l.data_words i.words;
        words_right = j.words;
        size = rw e refl;
      }
]

-- What a sum leaves: it counts modulo the weight of `max_size` words.
pub record Makes (max_size sum : ℕ) (n : BigUInt) : Type 0 where
  pub exact : number n ≡ sum % weight max_size
  pub sound : IsNumber max_size n

pub carry-le : (n v c a b : ℕ) → v + weight n * c ≡ a + b → a < weight n → b < weight n → c ≤ 1
carry-le n v c a b e p q = elim (dec_lt 1 c) [
  | no l ↦ omega arith
  | yes l ↦
      let two : weight n * 2 ≤ weight n * c = mul-le-mul_left (weight n) l in absurd (omega arith)
]

pub with_carry-Makes :
    (most size carry sum : ℕ) (words : List ℕ)
    → AreWords words
    → size ≤ most
    → carry ≤ 1
    → value size words + weight size * carry ≡ sum
    → Makes most sum (with_carry most size carry words)
with_carry-Makes most size carry sum words h l one e =
    let v = value-lt size words h in
    let narrow = weight_mono size most l in
    elim (Bool-cases (carry == 1)) [
      | inr z ↦
          let none : carry ≡ 0 = ground arith in
          let nothing = ap (λ (k : ℕ). weight size * k) none in
          rw (z, ◌&&◌)
            record {
              exact = remainder (value size words) (weight most) 0 sum (omega arith) (omega arith);
              sound = record { words = h; within = l };
            }
      | inl z ↦
          let once = ap (λ (k : ℕ). weight size * k) ((==_iff carry 1).0 z) in
          elim (Bool-cases (ltb size most)) [
            | inl s ↦
                let less = ltb→lt _ _ s in
                let wide = weight_mono (suc size) most less in
                let w = put-AreWords size 1 words (omega arith) h in
                let last = value-lt (suc size) (put size 1 words) w in
                let next : size + 1 ≡ suc size = omega arith in
                rw (z, s, ◌&&◌)
                  record {
                    exact =
                        ap (λ k. value k (put size 1 words)) next
                        ∙ remainder (value (suc size) (put size 1 words)) (weight most) 0 sum
                            (omega (arith, value-put size 1 words)) (omega arith);
                    sound = record { words = w; within = omega arith };
                  }
            | inr s ↦
                let full : size ≡ most = let g = ltb→ge _ _ s in omega arith in
                rw (z, s, ◌&&◌)
                  record {
                    exact =
                        remainder (value size words) (weight size) carry sum e v
                        ∙ ap (λ k. sum % weight k) full;
                    sound = record { words = h; within = l };
                  }
          ]
    ]
