-- ===== src/Memory/Ranges.antt =====
-- The operators on ranges of regions.cpp as operations on sets of addresses.
use beelzebub.Common.{ℕ, ◌≤◌, ◌<◌, ◌≡◌, ◌↔◌, true, ◌&&◌, ◌||◌, Ordering, arith}
use beelzebub.Memory.Regions.{
  MemoryRange, is_valid, intersection, union, equal, is_in, contains, compare_ranges,
  compare_adjacent,
}

abbrev pub IsProper : MemoryRange → Type 0
IsProper r = r.start < r.end

-- The intersection of two ranges that are not empty contains the addresses that both contain, and is
-- valid exactly when the ranges are not ordered one before the other.
pub intersection-contains :
    (a b : MemoryRange) (vaddr : ℕ)
    → IsProper a
    → IsProper b
    → (contains vaddr (intersection a b) ≡ (contains vaddr a && contains vaddr b))
      × ((is_valid (intersection a b) ≡ true) ↔ (compare_ranges a b ≡ Ordering.eq))
unfolding contains intersection is_valid
intersection-contains a b vaddr p q = (ground arith, ground arith)

-- The union of two ranges that are not empty is valid exactly when they overlap or touch, and then
-- contains the addresses that either contains. Otherwise it contains none.
pub union-contains :
    (a b : MemoryRange) (vaddr : ℕ)
    → IsProper a
    → IsProper b
    → ((is_valid (union a b) ≡ true) ↔ (compare_adjacent a b ≡ Ordering.eq))
      × (contains vaddr (union a b)
          ≡ (is_valid (union a b) && (contains vaddr a || contains vaddr b)))
unfolding contains union is_valid
union-contains a b vaddr p q = (ground arith, ground arith)

-- A range that is not empty is in another exactly when neither of its ends is outside.
pub is_in-bounds :
    (a b : MemoryRange) → IsProper a → (is_in a b ≡ true) ↔ ((b.start ≤ a.start) × (a.end ≤ b.end))
unfolding is_in intersection equal
is_in-bounds a b p = ground arith
