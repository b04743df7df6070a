-- ===== src/BigInt/Number.antt =====
-- `BigUInt` of sysheaders/common/beel/utils/bigint.hpp over the functions of bigint.cpp. `MaxSize` is a
-- parameter, and so are the words that a new object has before they are written. An operator that
-- changes its operands gives them back.
pub mod Bitwise
pub mod Balancing
pub mod Sums
pub mod Laws
use beelzebub.Common.{
  ◌⊎◌, inl, inr, ℕ, zero, suc, ◌+◌, ◌-◌, ◌*◌, ◌/◌, ◌%◌, ◌^◌, max, Bool, true, false, not, ◌&&◌,
  ◌==◌, leb, ltb, if◌then◌else◌, Ordering, List, [], ◌∷◌, Option, none, some,
}
use beelzebub.BigInt.{
  u32, minimum, same, apart, head, tail, Written, big_int_add, big_int_sub, big_int_mul,
}
use beelzebub.BigInt.Comparing.{big_int_cmp}
use beelzebub.BigInt.Powers.{big_int_get_pow10}
use beelzebub.BigInt.Shifting.{put, big_int_shl, big_int_shr}

pub record BigUInt : Type 0 where
  pub current_size : ℕ
  pub data_words : List ℕ

-- The words from `start` on that `count` rounds set to 0.
abbrev pub zero_from : (start count : ℕ) → List ℕ → List ℕ
zero_from zero zero xs = xs
zero_from zero (suc n) xs = 0 ∷ zero_from zero n (tail xs)
zero_from (suc k) n xs = head xs ∷ zero_from k n (tail xs)

pub record Balanced : Type 0 where
  pub size : ℕ
  pub left : BigUInt
  pub right : BigUInt

unfoldable pub balance : (left right : BigUInt) → Balanced
balance left right =
    let m = left.current_size in
    let n = right.current_size in
    if ltb n m
    then record {
      size = m;
      left = left;
      right = record right { data_words = zero_from n (m - n) right.data_words };
    }
    else record {
      size = n;
      left = record left { data_words = zero_from m (n - m) left.data_words };
      right = right;
    }

-- The size and the words that a function leaves.
abbrev pub taken : Written → BigUInt
taken w = record { current_size = w.size; data_words = w.words }

module _ (max_size : ℕ) where
  -- The carry out, where there is room for it.
  abbrev pub with_carry : (size carry : ℕ) → List ℕ → BigUInt
  with_carry size carry words =
      if (carry == 1) && ltb size max_size
      then record { current_size = size + 1; data_words = put size 1 words }
      else record { current_size = size; data_words = words }

  -- The constructor of a `uint64_t`.
  unfoldable pub from_uint64 : (fresh : List ℕ) → ℕ → BigUInt
  from_uint64 fresh val =
      if ltb 1 max_size
      then record {
        current_size = 2;
        data_words = (val % 2 ^ 32) ∷ (val / 2 ^ 32) ∷ tail (tail fresh);
      }
      else record { current_size = 1; data_words = (val % 2 ^ 32) ∷ tail fresh }

  -- `GetPowerOf10`; a new object has size 0.
  unfoldable pub get_power_of_10 : (fresh : List ℕ) → (exponent : ℕ) → BigUInt
  unfolding big_int_get_pow10
  get_power_of_10 fresh exponent = taken (big_int_get_pow10 fresh 0 max_size exponent)

  -- `operator +`: the sum, and what `Balance` leaves of the operands.
  unfoldable pub add : (fresh : List ℕ) → (left right : BigUInt) → BigUInt × BigUInt × BigUInt
  unfolding balance big_int_add
  add fresh left right =
      let b = balance left right in
      let r = big_int_add fresh (apart b.left.data_words) (apart b.right.data_words) b.size 0 in
      (with_carry b.size r.0 r.1, b.left, b.right)

  -- `operator +=`, of another object: the size is that of the left operand.
  unfoldable pub add_assign : (left right : BigUInt) → BigUInt × BigUInt
  unfolding balance big_int_add
  add_assign left right =
      let b = balance left right in
      let r = big_int_add b.left.data_words same (apart b.right.data_words) b.size 0 in
      (with_carry left.current_size r.0 r.1, b.right)

  unfoldable pub subtract : (fresh : List ℕ) → (left right : BigUInt) → BigUInt × BigUInt × BigUInt
  unfolding balance big_int_sub
  subtract fresh left right =
      let b = balance left right in
      let r = big_int_sub fresh (apart b.left.data_words) (apart b.right.data_words) b.size 0 in
      (record { current_size = b.size; data_words = r.1 }, b.left, b.right)

  unfoldable pub subtract_assign : (left right : BigUInt) → BigUInt × BigUInt
  unfolding balance big_int_sub
  subtract_assign left right =
      let b = balance left right in
      let r = big_int_sub b.left.data_words same (apart b.right.data_words) b.size 0 in
      (record { current_size = left.current_size; data_words = r.1 }, b.right)

  unfoldable pub multiply : (fresh : List ℕ) → (left right : BigUInt) → BigUInt
  unfolding big_int_mul
  multiply fresh left right = taken (
      big_int_mul fresh (apart left.data_words) left.current_size (apart right.data_words)
        right.current_size max_size false)

  unfoldable pub multiply_assign : (left right : BigUInt) → BigUInt
  unfolding big_int_mul
  multiply_assign left right = taken (
      big_int_mul left.data_words same left.current_size (apart right.data_words) right.current_size
        max_size false)

  unfoldable pub shift_left : (fresh : List ℕ) → BigUInt → (amount : ℕ) → BigUInt
  unfolding big_int_shl
  shift_left fresh left amount =
      taken (big_int_shl fresh (apart left.data_words) left.current_size max_size amount)

  unfoldable pub shift_left_assign : BigUInt → (amount : ℕ) → BigUInt
  unfolding big_int_shl
  shift_left_assign left amount =
      taken (big_int_shl left.data_words same left.current_size max_size amount)

-- None where `BigIntShR` reads outside.
abbrev pub taken? : ℕ ⊎ Written → Option BigUInt
taken? (inl i) = none
taken? (inr w) = some (taken w)

unfoldable pub shift_right : (fresh : List ℕ) → BigUInt → (amount : ℕ) → Option BigUInt
unfolding big_int_shr
shift_right fresh left amount =
    taken? (big_int_shr fresh left.current_size (apart left.data_words) left.current_size amount)

unfoldable pub shift_right_assign : BigUInt → (amount : ℕ) → Option BigUInt
unfolding big_int_shr
shift_right_assign left amount =
    taken? (big_int_shr left.data_words left.current_size same left.current_size amount)

unfoldable pub to_uint32 : BigUInt → ℕ
to_uint32 n = if n.current_size == 0 then 0 else head n.data_words

unfoldable pub to_uint64 : BigUInt → ℕ
to_uint64 n =
    if n.current_size == 0
    then 0
    else if n.current_size == 1
    then head n.data_words
    else head n.data_words + 2 ^ 32 * head (tail n.data_words)

-- `BigIntCmp` of two objects.
unfoldable pub compare_numbers : (left right : BigUInt) → Ordering
unfolding big_int_cmp
compare_numbers left right =
    big_int_cmp left.data_words left.current_size (apart right.data_words) right.current_size

-- `operator ==`, `operator >` and `operator >=`; the other three are their negations.
unfoldable pub is_equal : (left right : BigUInt) → Bool
unfolding compare_numbers
is_equal left right = elim (compare_numbers left right) [
  | Ordering.eq ↦ true
  | Ordering.lt ↦ false
  | Ordering.gt ↦ false
]

unfoldable pub is_greater : (left right : BigUInt) → Bool
unfolding compare_numbers
is_greater left right = elim (compare_numbers left right) [
  | Ordering.gt ↦ true
  | Ordering.eq ↦ false
  | Ordering.lt ↦ false
]

unfoldable pub is_greater_or_equal : (left right : BigUInt) → Bool
unfolding compare_numbers
is_greater_or_equal left right = elim (compare_numbers left right) [
  | Ordering.lt ↦ false
  | Ordering.eq ↦ true
  | Ordering.gt ↦ true
]

unfoldable pub is_less_or_equal : (left right : BigUInt) → Bool
unfolding is_greater
is_less_or_equal left right = not (is_greater left right)

unfoldable pub is_less : (left right : BigUInt) → Bool
unfolding is_greater_or_equal
is_less left right = not (is_greater_or_equal left right)

unfoldable pub is_different : (left right : BigUInt) → Bool
unfolding is_equal
is_different left right = not (is_equal left right)
