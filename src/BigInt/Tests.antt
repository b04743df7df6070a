-- ===== src/BigInt/Tests.antt =====
-- Concrete numbers for the theorems on big integers.
use beelzebub.Common.{
  inl, ℕ, ◌+◌, ◌-◌, ◌*◌, ◌%◌, ◌^◌, ◌≤◌, ◌<◌, ◌≡◌, ◌≢◌, ◌↔◌, ◌⊎◌, refl, List, [], ◌∷◌, true, false,
  some, arith,
}
use beelzebub.BigInt.{same, apart, minimum, big_int_sub, big_int_mul}
use beelzebub.BigInt.Words.{value, weight, AreWords}
use beelzebub.BigInt.Adding.{Leaves}
use beelzebub.BigInt.Multiplying.{big_int_mul-value}
use beelzebub.BigInt.Powers.{big_int_get_pow10, big_int_get_pow10-power}
use beelzebub.BigInt.Shifting.{big_int_shl, big_int_shr}
use beelzebub.BigInt.Shifting.Left.{shifted_source, big_int_shl-Holds}
use beelzebub.BigInt.Shifting.Raising.{Holds}
use beelzebub.BigInt.Number.{
  BigUInt, add, add_assign, subtract, shift_left_assign, shift_right, is_equal, is_different,
  is_less, is_less_or_equal, is_greater, is_greater_or_equal,
}
use beelzebub.BigInt.Number.Balancing.{number, IsNumber, Makes}
use beelzebub.BigInt.Number.Sums.{add-Makes, subtract-difference, add_assign_short-lost}
use beelzebub.BigInt.Number.Laws.{comparisons-compare, shift_right-shift_left}

abbrev blank : List ℕ
blank = 7 ∷ 7 ∷ 7 ∷ 7 ∷ []

blank-AreWords : AreWords blank
blank-AreWords = omega arith

-- 2^64 - 1, and 1, in at most four words.
abbrev long : BigUInt
long = record { current_size = 2; data_words = 0xFFFFFFFF ∷ 0xFFFFFFFF ∷ 7 ∷ 7 ∷ [] }

abbrev short : BigUInt
short = record { current_size = 1; data_words = 1 ∷ 7 ∷ 7 ∷ 7 ∷ [] }

-- 2^32.
abbrev round : BigUInt
round = record { current_size = 2; data_words = 0 ∷ 1 ∷ 7 ∷ 7 ∷ [] }

long-IsNumber : IsNumber 4 long
long-IsNumber = record { words = omega arith; within = omega arith }

short-IsNumber : IsNumber 4 short
short-IsNumber = record { words = omega arith; within = omega arith }

round-IsNumber : IsNumber 4 round
round-IsNumber = record { words = omega arith; within = omega arith }

add-Makes_example :
    let s = add 4 blank long short in
    Makes 4 (number long + number short) s.0
    × (number s.1 ≡ number long)
    × (number s.2 ≡ number short)
add-Makes_example = add-Makes 4 blank long short blank-AreWords long-IsNumber short-IsNumber

subtract-difference_example :
    let d = subtract 4 blank short long in
    (d.0.current_size ≡ 2)
    × (number d.0 + number long ≡ number short + weight d.0.current_size)
    × IsNumber 4 d.0
    × (number d.1 ≡ number short)
    × (number d.2 ≡ number long)
subtract-difference_example =
    subtract-difference 4 blank short long blank-AreWords short-IsNumber long-IsNumber

-- 1 += 2^32 is 1.
add_assign_short-lost_example :
    let s = (add_assign 4 short round).0 in
    (s.current_size ≡ 1) × (number s ≡ (number short + number round) % weight 1 + 0)
add_assign_short-lost_example =
    add_assign_short-lost 4 short round short-IsNumber round-IsNumber (omega arith)

-- 1 += 2^64 - 1 is 2^32.
carried_behind : number (add_assign 4 short long).0 ≡ 2 ^ 32
unfolding add_assign
carried_behind = refl

-- (2^64 - 1) * 2^32 in two words.
big_int_mul-value_example :
    let r = big_int_mul blank (apart long.data_words) 2 (apart round.data_words) 2 2 true in
    (r.size ≡ minimum (2 + 2) 2)
    × (value r.size r.words ≡ (number long * number round + 1) % weight r.size)
    × (r.overflow ≡ false)
    × Leaves r.size blank r.words
big_int_mul-value_example =
    big_int_mul-value blank (apart long.data_words) (apart round.data_words) 2 2 2 true
      (omega arith) blank-AreWords long-IsNumber.words round-IsNumber.words (omega arith)
      (omega arith)

comparisons-compare_example :
    ((is_equal long short ≡ true) ↔ (number long ≡ number short))
    × ((is_different long short ≡ true) ↔ (number long ≢ number short))
    × ((is_less long short ≡ true) ↔ (number long < number short))
    × ((is_less_or_equal long short ≡ true) ↔ (number long ≤ number short))
    × ((is_greater long short ≡ true) ↔ (number short < number long))
    × ((is_greater_or_equal long short ≡ true) ↔ (number short ≤ number long))
comparisons-compare_example =
    comparisons-compare long short long-IsNumber.words short-IsNumber.words

big_int_get_pow10-power_example :
    let r = big_int_get_pow10 blank 0 4 27 in
    (0 < 4
      × (27 < 512)
      × (r.overflow ≡ true)
      × (r.size ≤ 4)
      × (value r.size r.words ≡ 10 ^ 27 % weight 4))
    ⊎ ((◌≡◌ {A = ℕ} 4 0 ⊎ (512 ≤ 27)) × (r ≡ record { overflow = false; size = 0; words = blank }))
big_int_get_pow10-power_example = big_int_get_pow10-power blank 0 4 27 blank-AreWords (omega arith)

-- Out of place by 36 bits: the lowest word of the source is not read.
big_int_shl-Holds_example :
    Holds 4
      (value 2 (shifted_source (apart long.data_words) 36 blank) * 2 ^ 36)
      (big_int_shl blank (apart long.data_words) 2 4 36)
big_int_shl-Holds_example =
    big_int_shl-Holds blank (apart long.data_words) 2 4 36 blank-AreWords long-IsNumber.words

shift_right-shift_left_example :
    (m : BigUInt) × (shift_right blank (shift_left_assign 4 long 36) 36 ≡ some m)
    × (number m ≡ number long)
shift_right-shift_left_example =
    shift_right-shift_left 4 36 blank long long-IsNumber (omega arith) (omega arith) (omega arith)

-- 1 >> 1 reads at the index 2^32 - 1.
shifted_to_zero : big_int_shr blank 1 (apart short.data_words) 1 1 ≡ inl (2 ^ 32 - 1)
unfolding big_int_shr
shifted_to_zero = refl

-- 1 << 32 is 0 where the second word of the source is 0.
shifted_away : value 2 (big_int_shl blank (apart (1 ∷ 0 ∷ [])) 1 4 32).words ≡ 0
unfolding big_int_shl
shifted_away = refl

-- 9 - 5, where the 5 stands in the destination, is 5 - 9.
subtracted_backwards : big_int_sub (5 ∷ []) (apart (9 ∷ [])) same 1 0 ≡ (1, (2 ^ 32 - 4) ∷ [])
unfolding big_int_sub
subtracted_backwards = refl
