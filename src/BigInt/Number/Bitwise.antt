-- ===== src/BigInt/Number/Bitwise.antt =====
-- The logical operators, the copies and the slices of `BigUInt` in
-- sysheaders/common/beel/utils/bigint.hpp.
use Prim.Native.Nat.{bit_or, bit_xor}
use beelzebub.Common.{ℕ, ◌-◌, max, List}
use beelzebub.BigInt.{minimum, same, apart}
use beelzebub.BigInt.Logic.{big_int_and, big_int_combine, big_int_not}
use beelzebub.BigInt.Shifting.{copy}
use beelzebub.BigInt.Number.{BigUInt, zero_from}

unfoldable pub conjunction : (fresh : List ℕ) → (left right : BigUInt) → BigUInt
unfolding big_int_and
conjunction fresh left right =
    let size = minimum left.current_size right.current_size in
    record {
      current_size = size;
      data_words =
          big_int_and fresh size (apart left.data_words) left.current_size (apart right.data_words)
            right.current_size;
    }

-- The operators that change the left operand keep its size.
unfoldable pub conjunction_assign : (left right : BigUInt) → BigUInt
unfolding big_int_and
conjunction_assign left right = record left {
  data_words =
      big_int_and left.data_words left.current_size same left.current_size (apart right.data_words)
        right.current_size;
}

-- `operator |` and `operator ^`, by what combines two words.
unfoldable pub combination : (ℕ → ℕ → ℕ) → (fresh : List ℕ) → (left right : BigUInt) → BigUInt
unfolding big_int_combine
combination f fresh left right =
    let size = max left.current_size right.current_size in
    record {
      current_size = size;
      data_words =
          big_int_combine f fresh size (apart left.data_words) left.current_size
            (apart right.data_words) right.current_size;
    }

unfoldable pub combination_assign : (ℕ → ℕ → ℕ) → (left right : BigUInt) → BigUInt
unfolding big_int_combine
combination_assign f left right = record left {
  data_words =
      big_int_combine f left.data_words left.current_size same left.current_size
        (apart right.data_words) right.current_size;
}

abbrev pub disjunction : (fresh : List ℕ) → (left right : BigUInt) → BigUInt
disjunction = combination bit_or

abbrev pub disjunction_assign : (left right : BigUInt) → BigUInt
disjunction_assign = combination_assign bit_or

abbrev pub exclusive : (fresh : List ℕ) → (left right : BigUInt) → BigUInt
exclusive = combination bit_xor

abbrev pub exclusive_assign : (left right : BigUInt) → BigUInt
exclusive_assign = combination_assign bit_xor

unfoldable pub complement : (fresh : List ℕ) → BigUInt → BigUInt
unfolding big_int_not
complement fresh n = record {
  current_size = n.current_size;
  data_words = big_int_not fresh n.current_size (apart n.data_words) n.current_size;
}

-- The copy constructor and `operator =`, over the words that the object has.
unfoldable pub copy_number : (words : List ℕ) → BigUInt → BigUInt
copy_number words other = record {
  current_size = other.current_size;
  data_words = copy other.current_size other.data_words words;
}

-- `operator []`: the lowest words, extended by 0.
unfoldable pub slice : (max_size : ℕ) → (fresh : List ℕ) → BigUInt → (size : ℕ) → BigUInt
slice max_size fresh n size =
    let copied = minimum size n.current_size in
    record {
      current_size = minimum size max_size;
      data_words = zero_from copied (size - copied) (copy copied n.data_words fresh);
    }
