-- ===== src/Memory/Tests.antt =====
-- Ranges and regions of regions.hpp at concrete addresses.
use beelzebub.Common.{ℕ, ◌≡◌, refl, some, arith}
use beelzebub.Handles.{okay}
use beelzebub.Avl.Node.{null, node, to_list, get_height}
use beelzebub.Avl.Edit.{Allocator}
use beelzebub.Avl.Edit
use beelzebub.Avl.Tree.{AvlTree, find}
use beelzebub.Avl.Invariant.{IsWellFormed, contents}
use beelzebub.Memory.Regions.{
  MemoryRange, MemoryRegion, compare_regions, find_region, get_page_count,
}
use beelzebub.Memory.Lookup.{Located, AreProper, find_region-Located}

abbrev low : MemoryRange
low = record { start = 0x1000; end = 0x4000 }

pages_of_low : get_page_count low ≡ 3
unfolding get_page_count
pages_of_low = refl

abbrev region : ℕ → ℕ → MemoryRegion
region a b = record {
  range = record { start = a; end = b };
  flags = 0;
  type = 0;
  content = 0;
  next = 0;
  prev = 0;
}

abbrev no_memory : Allocator ℕ
no_memory = record {
  allocate = λ n. record { result = 1; address = 0; state = n };
  release = λ a n. (okay, n);
}

-- Two regions with a gap between them.
abbrev two_regions : AvlTree MemoryRegion ℕ
two_regions = record {
  root =
      node null 2 (record { address = 1; payload = region 0x1000 0x3000 })
        (node null 1 (record { address = 2; payload = region 0x4000 0x8000 }) null);
  node_count = 2;
  cookie = 0;
}

two_regions-IsWellFormed : IsWellFormed compare_regions two_regions
unfolding get_height to_list
two_regions-IsWellFormed = record {
  balanced = omega arith;
  sorted = ((refl, tt), (tt, tt));
  counted = refl;
}

two_regions-AreProper : AreProper (contents two_regions)
unfolding to_list
two_regions-AreProper = (omega arith, (omega arith, tt))

find_region-Located_example :
    Located 0x4FFF (contents two_regions) (find_region no_memory 0x4FFF two_regions)
find_region-Located_example =
    find_region-Located no_memory 0x4FFF two_regions two_regions-IsWellFormed two_regions-AreProper

find_in_second :
    find_region no_memory 0x4FFF two_regions
    ≡ some (record { address = 2; payload = region 0x4000 0x8000 })
unfolding find_region find Edit.find
find_in_second = refl
