-- ===== src/Memory/Vas/Tests.antt =====
-- The address space of vas.cpp with an allocator that counts.
use beelzebub.Common.{
  ℕ, suc, ◌+◌, ◌-◌, ◌≡◌, ◌≢◌, refl, ◌≤◌, ◌<◌, inr, true, false, [], ◌∷◌, ◌==◌, leb, ◌&&◌, none,
  if◌then◌else◌, All, arith,
}
use beelzebub.Handles.{okay, out_of_memory, page_free, is_okay}
use beelzebub.Avl.Edit.{Allocator, unlink, replace, remove_minimum, settle_removal}
use beelzebub.Avl.Edit
use beelzebub.Avl.Node.{
  Cell, null, node, to_list, balance, compute_height, get_balance, get_height, lean_left,
  lean_right, rotate_left, rotate_right,
}
use beelzebub.Avl.Tree.{give_back}
use beelzebub.Avl.Tree
use beelzebub.Memory.Regions.{MemoryRegion, find_region, get_size}
use beelzebub.Memory.Pointers.{load, lookup, map_nodes}
use beelzebub.Memory.Pointers
use beelzebub.Memory.Vas.{
  Vas, OperationParameters, DescriptorCheckResults, allocating, check, memory_contents_mergeable,
  repurpose, spawned, can_allocate_anonymously,
}
use beelzebub.Memory.Vas.Execute.{
  execute, execute_at, find_anonymous, manipulate, split_high, split_middle, merge_both,
  absorb_left,
}
use beelzebub.Memory.Vas.Calls.{initialize, allocate, free, allocate_operation}
use beelzebub.Memory.Vas.Chain.{AddressMap, used_as}
use beelzebub.Memory.Vas.Holding.{Laws}
use beelzebub.Memory.Vas.Space.{Implements, Around}
use beelzebub.Memory.Vas.Updates.{updated, purpose}
use beelzebub.Memory.Vas.Around.{Leaves}
use beelzebub.Memory.Vas.Starting.{all_free, initialize-Implements}
use beelzebub.Memory.Vas.Allocating.{Allocated}
use beelzebub.Memory.Vas.Contract.{allocate-Allocated}
use beelzebub.Memory.Vas.Sparse.{Cleared, free-Cleared}
use beelzebub.Memory.Vas.Ending.{free_enough}
use beelzebub.Memory.Vas.Settling.{allocate_enough}
use beelzebub.Memory.Vas.Executing.{Keeps}
use beelzebub.Memory.Vas.Refusing.{allocate_refused-Keeps}
use beelzebub.Memory.Vas.Manipulating.{low_of, high_of, manipulate-Leaves}
use beelzebub.Memory.Vas.Anonymous.{IsUnfit, find_anonymous_complete}
use beelzebub.Memory.Vas.Losing.{split_high-lost}

-- Addresses from 1 on, up to the state.
abbrev counting : Allocator ℕ
counting = record {
  allocate = λ n. record { result = okay; address = suc n; state = suc n };
  release = λ a n. (okay, n);
}

abbrev counting_laws : Laws counting
counting_laws = record {
  live = λ n a. leb 1 a && leb a n;
  fresh = λ n _. ((λ e. ground arith), ground arith);
  kept = λ n _. (ground arith, (λ a h. ground arith));
  released = λ n a h. (refl, (λ b _ k. k));
}

abbrev started : Vas ℕ
started = (initialize counting 0x1000 0x100000 0).1

initialize-Implements_example : Implements counting_laws all_free 0x1000 0x100000 started
initialize-Implements_example =
    initialize-Implements counting_laws 0x1000 0x100000 0 (omega arith)
      (unfold initialize Tree.insert Edit.insert Edit.descend Edit.create in refl)

start : Implements counting_laws all_free 0x1000 0x100000 started
start =
    initialize-Implements counting_laws 0x1000 0x100000 0 (omega arith)
      (unfold initialize Tree.insert Edit.insert Edit.descend Edit.create in refl)

-- Two pages at 0x5000, guarded at both ends.
abbrev asked : ℕ
asked = 0x5000

abbrev guarded : ℕ × ℕ × Vas ℕ
guarded = allocate counting 2 asked 0x2000 3 5 6 started

guarded_okay : is_okay guarded.0 ≡ true
unfolding initialize Tree.insert Edit.insert Edit.descend Edit.create Edit.settle balance
    compute_height get_balance get_height lean_left lean_right rotate_left rotate_right to_list
    allocate allocate_operation execute find_region Tree.find Edit.find execute_at check manipulate
    split_middle spawned repurpose load lookup Pointers.modify map_nodes
guarded_okay = refl

allocate-Allocated_example :
    (asked ≢ 0 → guarded.1 ≡ asked)
    × (0x1000 ≤ guarded.1)
    × Allocated counting_laws all_free 0x1000 0x100000
        (guarded.1 - 0x1000)
        0x4000
        (used_as 5 3)
        guarded.2
allocate-Allocated_example =
    allocate-Allocated counting_laws all_free 0x1000 0x100000 started (omega arith) start 0 asked
      0x2000 3 5 6 (omega arith) (omega arith) (omega arith) (λ _. (omega arith, omega arith))
      guarded_okay

-- What is freed again.
abbrev guarded_use : AddressMap
guarded_use = updated all_free (guarded.1 - 0x1000) ((guarded.1 - 0x1000) + 0x4000) (used_as 5 3)

guarded_space : Implements counting_laws guarded_use 0x1000 0x100000 guarded.2
guarded_space =
    (allocate-Allocated counting_laws all_free 0x1000 0x100000 started (omega arith) start 0 asked
      0x2000 3 5 6 (omega arith) (omega arith) (omega arith) (λ _. (omega arith, omega arith))
      guarded_okay).2.now

-- A sparse free of a range that starts before what is in use and ends behind it.
swept_okay : (free counting 3 0x3000 0x6000 true true guarded.2).0 ≡ okay
unfolding initialize Tree.insert Edit.insert Edit.descend Edit.create Edit.settle balance
    compute_height get_balance get_height lean_left lean_right rotate_left rotate_right to_list
    allocate allocate_operation execute find_region Tree.find Edit.find execute_at check manipulate
    split_middle spawned repurpose load lookup Pointers.modify map_nodes free merge_both absorb_left
    Tree.remove give_back Edit.remove unlink replace remove_minimum settle_removal
    memory_contents_mergeable
swept_okay = refl

free-Cleared_example :
    Cleared counting_laws 0x1000 0x100000 guarded_use 0x3000 0x6000
      (free counting 3 0x3000 0x6000 true true guarded.2).1
free-Cleared_example =
    free-Cleared counting_laws 0x1000 0x100000 (omega arith) true 3 guarded_use guarded.2 0x3000
      0x6000 guarded_space (omega arith) (omega arith) swept_okay

-- A second allocation at the same address is refused.
abbrev again : ℕ × ℕ × Vas ℕ
again = allocate counting 2 asked 0x2000 3 5 0 guarded.2

again_refused : again.0 ≡ page_free
unfolding initialize Tree.insert Edit.insert Edit.descend Edit.create Edit.settle balance
    compute_height get_balance get_height lean_left lean_right rotate_left rotate_right to_list
    allocate allocate_operation execute find_region Tree.find Edit.find execute_at check manipulate
    split_middle spawned repurpose load lookup Pointers.modify map_nodes
again_refused = refl

allocate_refused-Keeps_example : Keeps guarded.2 again.2
allocate_refused-Keeps_example =
    allocate_refused-Keeps counting_laws (λ n. refl) guarded_use 0x1000 0x100000 guarded.2
      (omega arith) guarded_space 0 asked 0x2000 3 5 0 (omega arith) (omega arith) (omega arith)
      (λ _. (omega arith, omega arith)) (λ e. let r = again_refused in ground arith)

-- One free region, and an operation in its middle.
abbrev cell : Cell MemoryRegion
cell = record {
  address = 1;
  payload = record {
    range = record { start = 0x1000; end = 0x100000 };
    flags = 0;
    type = 0;
    content = 0xFF;
    next = 0;
    prev = 0;
  };
}

abbrev plain : Vas ℕ
plain = record {
  tree = record { root = node null 1 cell null; node_count = 1; cookie = 1 };
  first = 1;
  last_searched = 0;
}

plain_around :
    {alloc : Allocator ℕ} (laws : Laws alloc)
    → laws.live 1 1 ≡ true
    → Around laws all_free 0x1000 0x100000 plain [] cell []
unfolding to_list get_height
plain_around laws l = record {
  last = 0;
  border = 0x1000;
  final = 1;
  holding = record {
    held = refl;
    distinct = (tt, tt);
    alive = (((λ e. omega arith), l), tt);
    balanced = (refl, omega arith, omega arith, tt, tt);
  };
  first = refl;
  front = (refl, refl);
  here = record {
    prev = refl;
    start = refl;
    proper = omega arith;
    next = refl;
    shows = λ a m u. refl;
  };
  back = (refl, refl);
}

abbrev middle : OperationParameters
middle = record {
  start_size = 0x2000;
  address = 0x5000;
  size = 0x2000;
  sparse = false;
  tolerant = false;
  manipulation = allocating 3 5 0;
}

abbrev middle_check : DescriptorCheckResults
middle_check = check middle cell.payload (load 0 plain.tree) (load 0 plain.tree)

manipulate-Leaves_example :
    Leaves counting_laws
      (updated all_free
        (low_of middle cell.payload middle_check)
        (high_of middle cell.payload middle_check)
        (purpose (allocating 3 5 0)))
      0x1000
      0x100000
      (manipulate counting (allocating 3 5 0) 0x5000 0x7000 1 cell.payload middle_check plain)
manipulate-Leaves_example =
    manipulate-Leaves counting_laws middle all_free 0x1000 0x100000 plain [] cell []
      (plain_around counting_laws refl) (omega arith) (omega arith) (omega arith) (omega arith)
      (λ _. omega arith) (inr (λ n. refl))

-- More than the space has.
abbrev huge : OperationParameters
huge = record middle { start_size = 0x200000; address = 0; size = 0x200000 }

abbrev plain_space : Implements counting_laws all_free 0x1000 0x100000 plain
plain_space =
    let w = plain_around counting_laws refl in
    record {
      cells = cell ∷ [];
      last = 1;
      holding = w.holding;
      first = refl;
      chain = (
        record {
          prev = refl;
          start = refl;
          proper = omega arith;
          next = refl;
          shows = λ a l u. refl;
        },
        (refl, refl),
      );
    }

find_anonymous_complete_example : All (IsUnfit huge) plain_space.cells
find_anonymous_complete_example =
    find_anonymous_complete counting_laws all_free 0x1000 0x100000 plain huge (omega arith)
      plain_space 1 (omega arith)
      (unfold find_anonymous can_allocate_anonymously get_size load lookup to_list in refl)

-- An allocator with one node to give.
abbrev single : Allocator ℕ
single = record {
  allocate = λ n.
      if n == 0
      then record { result = okay; address = 1; state = 1 }
      else record { result = out_of_memory; address = 0; state = n };
  release = λ a n. (okay, n);
}

abbrev single_laws : Laws single
single_laws = record {
  live = λ n a. leb 1 a && leb a n;
  fresh = λ n e. ((λ z. ground arith), ground arith);
  kept = λ n e. (ground arith, (λ a h. ground arith));
  released = λ n a h. (refl, (λ b _ k. k));
}

split_high-lost_example :
    let r = split_high single (allocating 3 5 0) 0x80000 0x100000 1 cell.payload plain in
    (r.0 ≡ out_of_memory)
    × ((a : ℕ) → 0x80000 ≤ a → a < 0x100000 → find_region single a r.1.tree ≡ none)
split_high-lost_example =
    split_high-lost single_laws (allocating 3 5 0) 0x80000 0x100000 all_free 0x1000 0x100000 plain
      [] cell [] (plain_around single_laws refl) (omega arith) (omega arith) refl

free_enough_example :
    free counting 0x6001 0x3000 0x6000 true true guarded.2
    ≡ free counting 0x10000 0x3000 0x6000 true true guarded.2
free_enough_example =
    free_enough counting 0x6001 0x10000 guarded.2 0x3000 0x6000 true true (omega arith)
      (omega arith) (omega arith)

allocate_enough_example :
    allocate counting 3 0 0x2000 3 5 0 plain ≡ allocate counting 9 0 0x2000 3 5 0 plain
allocate_enough_example =
    allocate_enough counting_laws all_free 0x1000 0x100000 plain (omega arith) (omega arith)
      plain_space 3 9 0 0x2000 3 5 0 (omega arith) (omega arith)
