-- ===== src/Handles/Handle.antt =====
-- `Handle` of sysheaders/common/beel/handles.h: a kind, an index and a flag, or a chain of results, in
-- one 64-bit word.
use beelzebub.Common.{
  ℕ, ◌+◌, ◌-◌, ◌*◌, ◌/◌, ◌%◌, ◌^◌, Bool, not, ◌||◌, ◌&&◌, ltb, ◌==◌, if◌then◌else◌,
}
use beelzebub.Handles.{HandleResult, okay}

-- The `uint8_t` behind `HandleType`.
abbrev pub HandleType : Type 0
HandleType = ℕ

abbrev pub invalid : HandleType
invalid = 0x00

abbrev pub result : HandleType
result = 0x01

-- `Value`, below 2 ^ 64; the other members of the union are bytes and words of it.
pub record Handle : Type 0 where
  pub value : ℕ

-- `Bytes[i]`.
abbrev pub byte : ℕ → Handle → ℕ
byte i h = h.value / 2 ^ (8 * i) % 256

-- `GlobalFatalBit` where `b`.
abbrev pub flag_bit : Bool → ℕ
flag_bit b = if b then 2 ^ 63 else 0

-- The parts that the masks leave of a value: `& IndexBits`, then `>> IndexOffset`; `& GlobalFatalBit`.
abbrev pub index_part : ℕ → ℕ
index_part v = v / 2 ^ 8 % 2 ^ 55

abbrev pub flag_part : ℕ → ℕ
flag_part v = v / 2 ^ 63 % 2 * 2 ^ 63

-- `Handle(type, index, global)`.
unfoldable pub make : HandleType → ℕ → Bool → Handle
make type index global = record { value = type + index % 2 ^ 55 * 2 ^ 8 + flag_bit global }

-- `Handle(res)`.
unfoldable pub make_result : HandleResult → Handle
make_result res = record { value = result + res * 2 ^ 8 }

-- `Handle(res, fatal)`.
unfoldable pub make_fatal : HandleResult → Bool → Handle
make_fatal res fatal = record { value = result + res * 2 ^ 8 + flag_bit fatal }

unfoldable pub get_type : Handle → HandleType
get_type h = byte 0 h

unfoldable pub is_type : HandleType → Handle → Bool
is_type type h = byte 0 h == type

unfoldable pub is_global_or_fatal : Handle → Bool
is_global_or_fatal h = not (byte 7 h / 128 == 0)

unfoldable pub is_global : Handle → Bool
unfolding is_global_or_fatal get_type
is_global h = is_global_or_fatal h && not (get_type h == result) && not (get_type h == invalid)

unfoldable pub is_fatal_result : Handle → Bool
unfolding is_global_or_fatal get_type
is_fatal_result h = is_global_or_fatal h && (get_type h == result)

unfoldable pub is_valid : Handle → Bool
unfolding is_type
is_valid h = not (is_type invalid h)

abbrev pub no_index : ℕ
no_index = 2 ^ 64 - 1

unfoldable pub get_index : Handle → ℕ
unfolding is_type
get_index h = if is_type result h || is_type invalid h then no_index else index_part h.value

unfoldable pub get_index_of : HandleType → Handle → ℕ
unfolding is_type
get_index_of type h = if is_type type h then index_part h.value else no_index

unfoldable pub get_result : Handle → HandleResult
get_result h = byte 1 h

-- One less than the number of results, or 6 where results were dropped.
unfoldable pub get_result_count : Handle → ℕ
get_result_count h = byte 7 h / 16 % 8

unfoldable pub with_result_count : ℕ → Handle → Handle
with_result_count count h = record {
  value = h.value / 2 ^ 63 * 2 ^ 63 + count % 8 * 2 ^ 60 + h.value % 2 ^ 60;
}

-- A handle that is not a result makes the null handle.
unfoldable pub with_preppended_result : HandleResult → Handle → Handle
unfolding is_type get_result_count
with_preppended_result res h =
    let shifted = h.value / 2 ^ 8 % 2 ^ 40 * 2 ^ 16 in
    let kept =
      if ltb (get_result_count h) 6
      then (get_result_count h + 1) * 2 ^ 60 + flag_part h.value
      else h.value / 2 ^ 60 % 16 * 2 ^ 60 in
    if is_type result h
    then record { value = kept + h.value % 256 + shifted + res * 2 ^ 8 }
    else record { value = 0 }

unfoldable pub is_result : HandleResult → Handle → Bool
unfolding get_type
is_result res h = (byte 1 h == res) && (get_type h == result)

-- `Words[0] == OkayResultWord`.
unfoldable pub is_okay_result : Handle → Bool
is_okay_result h = h.value % 2 ^ 16 == okay * 2 ^ 8 + result
