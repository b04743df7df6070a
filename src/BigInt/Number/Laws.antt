-- ===== src/BigInt/Number/Laws.antt =====
-- The other operators of `BigUInt` in sysheaders/common/beel/utils/bigint.hpp on numbers.
use beelzebub.Common.{
  ℕ, ◌+◌, ◌*◌, ◌/◌, ◌%◌, ◌^◌, ◌≤◌, ◌<◌, ◌≡◌, ◌≢◌, ◌↔◌, refl, ap, ◌∙◌, List, true, false, ltb, inl,
  inr, some, arith,
}
use native.Mathlib.Nat.{mod-eq_of_lt, mul-div_cancel}
use beelzebub.BigInt.{Source, same, apart, contents, big_int_mul}
use beelzebub.BigInt.Words.{value, weight, AreWords}
use beelzebub.BigInt.Multiplying.{big_int_mul-value}
use beelzebub.BigInt.Comparing.{big_int_cmp-compare}
use beelzebub.BigInt.Weights.{limited}
use beelzebub.BigInt.Shifting.Left.{big_int_shl-Holds}
use beelzebub.BigInt.Shifting.Right.{big_int_shr-quotient}
use beelzebub.BigInt.Shifting.Bits.{pow-pos}
use beelzebub.BigInt.Number.{
  BigUInt, taken, taken?, from_uint64, to_uint64, multiply, multiply_assign, shift_left_assign,
  shift_right, compare_numbers, is_equal, is_greater, is_greater_or_equal, is_less,
  is_less_or_equal, is_different,
}
use beelzebub.BigInt.Number.Balancing.{number, number-lt, IsNumber, Makes}

-- `operator *` and `operator *=` of `BigUInt` make the product, modulo the weight of `MaxSize` words, in an
-- object that is well formed again. The sizes are not both 0, and `MaxSize` is below 2^31.
pub multiply-Makes :
    (max_size : ℕ) (fresh : List ℕ) (l r : BigUInt)
    → AreWords fresh
    → IsNumber max_size l
    → IsNumber max_size r
    → 0 < l.current_size + r.current_size
    → max_size < 2 ^ 31
    → Makes max_size (number l * number r) (multiply max_size fresh l r)
      × Makes max_size (number l * number r) (multiply_assign max_size l r)
unfolding multiply multiply_assign
multiply-Makes most fresh l r words i j filled small = (
  product fresh (apart l.data_words) words i.words refl,
  product l.data_words same i.words i.words refl,
)
  where
    product :
        (dst : List ℕ) (src : Source)
        → AreWords dst
        → AreWords (contents src dst)
        → contents src dst ≡ l.data_words
        → Makes most (number l * number r) (record {
          current_size =
              (big_int_mul dst src l.current_size
                (apart r.data_words)
                r.current_size
                most
                false).size;
          data_words =
              (big_int_mul dst src l.current_size
                (apart r.data_words)
                r.current_size
                most
                false).words;
        })
    product dst src h k e =
        let m =
          big_int_mul-value dst src (apart r.data_words) l.current_size r.current_size most false
            (let a = i.within in let b = j.within in omega arith) h k j.words filled
            (let a = i.within in let b = j.within in omega arith) in
        let made =
          big_int_mul dst src l.current_size (apart r.data_words) r.current_size most false in
        let factors : value l.current_size (contents src dst) * number r + 0 ≡ number l * number r =
          omega (arith, ap (λ xs. value l.current_size xs * number r) e) in
        record {
          exact =
              m.1
              ∙ ap (λ (n : ℕ). n % weight made.size) factors
              ∙ ap (λ n. number l * number r % weight n) m.0
              ∙ limited l.current_size r.current_size (number l) (number r) most (number-lt l i)
                  (number-lt r j);
          sound = record { words = m.3.fits; within = ground arith };
        }

-- The six comparisons of `BigUInt`, on words of 32 bits, compare the numbers, whatever the sizes.
pub comparisons-compare :
    (l r : BigUInt)
    → AreWords l.data_words
    → AreWords r.data_words
    → ((is_equal l r ≡ true) ↔ (number l ≡ number r))
      × ((is_different l r ≡ true) ↔ (number l ≢ number r))
      × ((is_less l r ≡ true) ↔ (number l < number r))
      × ((is_less_or_equal l r ≡ true) ↔ (number l ≤ number r))
      × ((is_greater l r ≡ true) ↔ (number r < number l))
      × ((is_greater_or_equal l r ≡ true) ↔ (number r ≤ number l))
unfolding is_equal is_different is_less is_less_or_equal is_greater is_greater_or_equal
    compare_numbers
comparisons-compare l r h k =
    let c =
      big_int_cmp-compare l.data_words l.current_size (apart r.data_words) r.current_size h k in
    (
      ((λ e. ground arith), (λ e. ground arith)),
      ((λ e q. ground arith), (λ e. ground arith)),
      ((λ e. ground arith), (λ e. ground arith)),
      ((λ e. ground arith), (λ e. ground arith)),
      ((λ e. ground arith), (λ e. ground arith)),
      ((λ e. ground arith), (λ e. ground arith)),
    )

-- `operator <<=` and then `operator >>` by as many bits give a number back that is not 0 and, shifted,
-- fits in `MaxSize` words, of which there are fewer than 2^32. The number's words have 32 bits, and its
-- size is at most `MaxSize`.
pub shift_right-shift_left :
    (max_size amount : ℕ) (fresh : List ℕ) (n : BigUInt)
    → IsNumber max_size n
    → max_size < 2 ^ 32
    → 0 < number n
    → number n * 2 ^ amount < weight max_size
    → (m : BigUInt) × (shift_right fresh (shift_left_assign max_size n amount) amount ≡ some m)
      × (number m ≡ number n)
unfolding shift_right shift_left_assign
shift_right-shift_left most amount fresh n i small positive fit =
    let s = shift_left_assign most n amount in
    let left = big_int_shl-Holds n.data_words same n.current_size most amount i.words i.words in
    let up : number s ≡ number n * 2 ^ amount = left.exact ∙ mod-eq_of_lt fit in
    let down : number s / 2 ^ amount ≡ number n =
      ap (λ (k : ℕ). k / 2 ^ amount) up ∙ mul-div_cancel (number n) (pow-pos amount) in
    let l = left.within in
    elim (big_int_shr-quotient fresh (apart s.data_words) s.current_size amount left.fits
      (omega arith)) [
        | inl (e, z, w) ↦ absurd (omega arith)
        | inr (w, e, v, r, q) ↦ (taken w, ap taken? e, v ∙ down)
      ]

-- A `uint64_t` is the number of the object constructed from it, and `ToUInt64` gives it back, where
-- `MaxSize` is at least 2.
pub to_uint64-from_uint64 :
    (max_size : ℕ) (fresh : List ℕ) (val : ℕ)
    → 2 ≤ max_size
    → val < 2 ^ 64
    → (to_uint64 (from_uint64 max_size fresh val) ≡ val)
      × (number (from_uint64 max_size fresh val) ≡ val)
unfolding to_uint64 from_uint64
to_uint64-from_uint64 most fresh val two fit =
    let long : ltb 1 most ≡ true = ground arith in rw long (omega arith, omega arith)
