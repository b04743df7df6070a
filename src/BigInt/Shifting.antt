-- ===== src/BigInt/Shifting.antt =====
-- `BigIntShL` and `BigIntShR` of libs/common/src/utils/bigint.cpp.
pub mod Bits
pub mod Moves
pub mod Raising
pub mod Left
pub mod Right
use Prim.Native.Nat.{bit_or}
use beelzebub.Common.{
  ◌⊎◌, inl, inr, ℕ, zero, suc, ◌+◌, ◌-◌, ◌*◌, ◌/◌, ◌%◌, ◌^◌, List, ◌∷◌, Bool, true, false, leb, ltb,
  ◌==◌, not, if◌then◌else◌, Option, none, some,
}
use beelzebub.BigInt.{u32, minimum, Source, same, apart, contents, head, tail, drop, clear, Written}

-- The move by whole words to the place after `places` words.
abbrev pub copy : (count : ℕ) → (src dst : List ℕ) → List ℕ
copy zero src dst = dst
copy (suc n) src dst = head src ∷ copy n (tail src) (tail dst)

abbrev pub move_up : (places count : ℕ) → (src dst : List ℕ) → List ℕ
move_up zero count src dst = copy count src dst
move_up (suc p) count src dst = head dst ∷ move_up p count src (tail dst)

-- `places` words 0 before the rest.
abbrev pub pad : ℕ → List ℕ → List ℕ
pad zero xs = xs
pad (suc p) xs = 0 ∷ pad p xs

abbrev pub put : ℕ → ℕ → List ℕ → List ℕ
put zero v xs = v ∷ tail xs
put (suc n) v xs = head xs ∷ put n v (tail xs)

-- The loop over the words, upwards. `|` is `+`, since the bits below `amount` of `window` are 0.
unfoldable pub shift_up : (count amount overflow : ℕ) → (src dst : List ℕ) → List ℕ × ℕ
shift_up zero amount overflow src dst = (dst, overflow)
shift_up (suc n) amount overflow src dst =
    let window = (head src * 2 ^ amount) % 2 ^ 64 + overflow in
    let rest = shift_up n amount (window / 2 ^ 32) (tail src) (tail dst) in
    (u32 window ∷ rest.0, rest.1)

-- What is done with the overflow of the last word.
abbrev pub keep_overflow : (size max_size overflow : ℕ) → List ℕ → Written
keep_overflow size max_size overflow words =
    if overflow == 0
    then record { overflow = false; size = size; words = words }
    else if ltb size max_size
    then record { overflow = false; size = size + 1; words = put size overflow words }
    else record { overflow = true; size = size; words = words }

-- After a move by whole words the bits are shifted out of `src`, which has moved only where it is `dst`.
unfoldable pub big_int_shl : List ℕ → Source → (size max_size amount : ℕ) → Written
unfolding shift_up
big_int_shl dst src size max_size amount =
    let places = amount / 32 in
    let size_d = minimum max_size (size + places) in
    let moved = move_up places (size_d - places) (contents src dst) dst in
    let high =
      shift_up (size_d - places) (amount % 32) 0 (drop places (contents src moved))
        (drop places moved) in
    let low = shift_up size_d (amount % 32) 0 (contents src dst) dst in
    if leb max_size places
    then record { overflow = true; size = max_size; words = clear max_size dst }
    else if not (places == 0)
    then keep_overflow size_d max_size high.1 (pad places high.0)
    else keep_overflow size_d max_size low.1 low.0

-- The loop over the words, downwards: the words above come first. `amount` is what is left to 32.
unfoldable pub shift_down : (count amount underflow : ℕ) → (src dst : List ℕ) → List ℕ × ℕ
shift_down zero amount underflow src dst = (dst, underflow)
shift_down (suc n) amount underflow src dst =
    let above = shift_down n amount underflow (tail src) (tail dst) in
    let window = (head src * 2 ^ amount) % 2 ^ 64 in
    (bit_or (window / 2 ^ 32) above.1 ∷ above.0, u32 window)

-- The index `sizeD - 1`, of 32 bits.
abbrev pub last_index : (size : ℕ) → ℕ
last_index size = u32 (size + 2 ^ 32 - 1)

-- The loop at the end. On the right the size that it stops at. At a size of 0 the index wraps to 2^32 - 1,
-- which no array has, since sizes have 32 bits: on the left that index, read outside.
unfoldable pub trim : (size : ℕ) → List ℕ → ℕ ⊎ ℕ
trim zero words = inl (last_index zero)
trim (suc n) words =
    let rest = trim n words in
    if head (drop (last_index (suc n)) words) == 0 then rest else inr (suc n)

abbrev pub trimmed : (size : ℕ) → List ℕ × ℕ → ℕ ⊎ Written
trimmed size r = elim (trim size r.0) [
  | inl i ↦ inl i
  | inr n ↦ inr (record { overflow = not (r.1 == 0); size = n; words = r.0 })
]

-- `size_d` is the size that the destination has at the call. On the left the index of a read outside.
unfoldable pub big_int_shr : List ℕ → (size_d : ℕ) → Source → (size_s amount : ℕ) → ℕ ⊎ Written
unfolding shift_down trim
big_int_shr dst size_d src size_s amount =
    let xs = contents src dst in
    let places = amount / 32 in
    let up = 32 - amount % 32 in
    let underflow = if ltb size_d size_s then head (drop size_d xs) / 2 ^ (32 - up) else 0 in
    let count = u32 (minimum size_s size_d + 2 ^ 32 - places) in
    if leb size_s places
    then inr (record { overflow = true; size = 0; words = dst })
    else trimmed count (shift_down count up underflow (drop places xs) dst)
