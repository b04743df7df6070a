-- ===== src/Memory/Regions.antt =====
-- `MemoryRange` and `MemoryRegion` of beelzebub/inc/memory/regions.hpp and
-- beelzebub/src/memory/regions.cpp, with their comparisons.
use beelzebub.Common.{
  ℕ, ◌+◌, ◌-◌, ◌/◌, ◌^◌, max, Bool, not, ◌&&◌, ◌||◌, ltb, leb, ◌==◌, if◌then◌else◌, u64, Option,
  Ordering,
}
use beelzebub.Avl.Node.{Cell}
use beelzebub.Avl.Edit.{Allocator}
use beelzebub.Avl.Tree.{AvlTree, find}

abbrev pub min : ℕ → ℕ → ℕ
min a b = if leb a b then a else b

-- Addresses are below 2 ^ 64. `End` is the first one that is not in the range.
pub record MemoryRange : Type 0 where
  pub start : ℕ
  pub end : ℕ

-- `Invalid`, which the constructor without arguments makes too.
abbrev pub invalid : MemoryRange
invalid = record { start = 1337; end = 42 }

unfoldable pub is_valid : MemoryRange → Bool
is_valid r = not (r.start == 1337) || not (r.end == 42)

unfoldable pub get_size : MemoryRange → ℕ
get_size r = u64 (r.end + 2 ^ 64 - r.start)

unfoldable pub get_page_count : MemoryRange → ℕ
unfolding get_size
get_page_count r = get_size r / 4096

-- `operator &`.
unfoldable pub intersection : MemoryRange → MemoryRange → MemoryRange
intersection a b =
    if leb a.end b.start || leb b.end a.start
    then invalid
    else record { start = max a.start b.start; end = min a.end b.end }

-- `operator |`.
unfoldable pub union : MemoryRange → MemoryRange → MemoryRange
union a b =
    if ltb a.end b.start || ltb b.end a.start
    then invalid
    else record { start = min a.start b.start; end = max a.end b.end }

-- `operator ==`.
unfoldable pub equal : MemoryRange → MemoryRange → Bool
equal a b = (a.start == b.start) && (a.end == b.end)

unfoldable pub is_in : MemoryRange → MemoryRange → Bool
unfolding equal intersection
is_in a b = equal a (intersection a b)

unfoldable pub contains : ℕ → MemoryRange → Bool
contains vaddr r = leb r.start vaddr && ltb vaddr r.end

-- `Next` and `Prev` are addresses of regions, 0 for null. The flags, the options and the content are
-- the codes of beelzebub/inc/memory/enums.hpp.
pub record MemoryRegion : Type 0 where
  pub range : MemoryRange
  pub flags : ℕ
  pub type : ℕ
  pub content : ℕ
  pub next : ℕ
  pub prev : ℕ

-- `Compare` of two ranges, of a range and an address, and of an address and a range.
abbrev pub compare_ranges : MemoryRange → MemoryRange → Ordering
compare_ranges a b =
    if leb a.end b.start
    then Ordering.lt
    else if leb b.end a.start
    then Ordering.gt
    else Ordering.eq

abbrev pub compare_address : MemoryRange → ℕ → Ordering
compare_address a b =
    if leb a.end b then Ordering.lt else if ltb b a.start then Ordering.gt else Ordering.eq

abbrev pub opposite : Ordering → Ordering
opposite Ordering.lt = Ordering.gt
opposite Ordering.eq = Ordering.eq
opposite Ordering.gt = Ordering.lt

abbrev pub compare_with_address : ℕ → MemoryRange → Ordering
compare_with_address a b = opposite (compare_address b a)

-- `COMP_MREG_AMRE_IMPL`: a region that overlaps the payload or touches it is equal to it.
abbrev pub compare_adjacent : MemoryRange → MemoryRange → Ordering
compare_adjacent a payload =
    if ltb a.end payload.start
    then Ordering.lt
    else if ltb payload.end a.start
    then Ordering.gt
    else Ordering.eq

-- `Compare` of regions, which goes on to their ranges.
abbrev pub compare_regions : MemoryRegion → MemoryRegion → Ordering
compare_regions a b = compare_ranges a.range b.range

-- `Vas::FindRegion` of beelzebub/src/memory/vas.cpp.
unfoldable pub find_region {κ} :
    {S : Type κ} → Allocator S → ℕ → AvlTree MemoryRegion S → Option (Cell MemoryRegion)
unfolding find
find_region alloc vaddr tree = find alloc (λ reg. compare_address reg.range vaddr) tree
