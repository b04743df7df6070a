-- ===== src/Memory/Vas.antt =====
-- `Vas` of beelzebub/src/memory/vas.cpp: the regions of an address space, in a tree and linked in order,
-- and `Allocate` and `Free`, which share `OperationParameters::Execute`. A call is one step, under the
-- lock; the hooks `PreOp` and `PostOp` are those of `Vas` itself, which are not called.
pub mod Writes
pub mod Execute
pub mod Chain
pub mod Holding
pub mod Updates
pub mod Space
pub mod Links
pub mod Around
pub mod Growth
pub mod Checks
pub mod Neighbours
pub mod Manipulating
pub mod Allocating
pub mod Freeing
mod Tests
pub mod Refusing
pub mod Losing
pub mod Starting
pub mod Sweeping
pub mod Sparse
pub mod Ending
pub mod Settling
pub mod Contract
pub mod Finding
pub mod Stepping
pub mod Running
pub mod Anonymous
pub mod Calls
pub mod Executing
pub mod Merges
pub mod Splits
pub mod Middle
use beelzebub.Common.{
  ℕ, zero, suc, ◌+◌, ◌-◌, ◌*◌, ◌/◌, ◌%◌, ◌^◌, Bool, true, false, not, ◌&&◌, ◌||◌, leb, ltb, ◌==◌,
  if◌then◌else◌, u64, Option, none, some, List, [], ◌∷◌,
}
use beelzebub.Handles.{
  HandleResult, okay, out_of_memory, failed, object_disposed, argument_out_of_range, page_free,
  is_okay,
}
use beelzebub.Avl.Node.{Cell, null}
use beelzebub.Avl.Edit.{Allocator}
use beelzebub.Avl.Tree.{AvlTree}
use beelzebub.Avl.Tree
use beelzebub.Memory.Regions.{
  MemoryRange, MemoryRegion, compare_regions, compare_address, get_size, find_region,
}
use beelzebub.Memory.Pointers.{load, modify}

-- `MemoryContent::Free`, and the contents that merge: `Generic`, `CpuDatas`, `VmmBootstrap` and `Free`.
abbrev pub free_content : ℕ
free_content = 0xFF

unfoldable pub memory_contents_mergeable : ℕ → ℕ → Bool
memory_contents_mergeable a b =
    (a == b) && (a == 0x00 || a == 0x05 || a == 0xFE || a == free_content)

-- The bits of `MemoryAllocationOptions`.
abbrev pub permanent : ℕ → Bool
permanent type = not (type % 2 == 0)

abbrev pub guard_high : ℕ → Bool
guard_high type = not (type / 2 % 2 == 0)

abbrev pub guard_low : ℕ → Bool
guard_low type = not (type / 4 % 2 == 0)

-- `& ~GuardHigh`, `& ~GuardLow` and `& ~GuardFull`.
abbrev pub without_high : ℕ → ℕ
without_high type = type / 4 * 4 + type % 2

abbrev pub without_low : ℕ → ℕ
without_low type = type / 8 * 8 + type % 4

abbrev pub without_guards : ℕ → ℕ
without_guards type = type / 8 * 8 + type % 2

abbrev pub page_size : ℕ
page_size = 0x1000

pub record Vas {ℓ} (S : Type ℓ) : Type ℓ where
  pub tree : AvlTree MemoryRegion S
  pub first : ℕ
  pub last_searched : ℕ

-- `AllocateOperation` with its fields, and `FreeOperation`.
pub data Manipulation : Type 0 where
  allocating : (flags content type : ℕ) → Manipulation
  freeing : Manipulation

pub record OperationParameters : Type 0 where
  pub start_size : ℕ
  pub address : ℕ
  pub size : ℕ
  pub sparse : Bool
  pub tolerant : Bool
  pub manipulation : Manipulation

pub record DescriptorCheckResults : Type 0 where
  pub accepted : Bool
  pub meets_left : Bool
  pub meets_right : Bool
  pub left_mergeable : Bool
  pub right_mergeable : Bool
  pub failure_result : HandleResult

-- `Allocation`.
abbrev pub is_allocation : Manipulation → Bool
is_allocation (allocating flags content type) = true
is_allocation freeing = false

-- `prev` and `next` are the neighbours, where there are any.
unfoldable pub check :
    OperationParameters
    → MemoryRegion
    → Option MemoryRegion
    → Option MemoryRegion
    → DescriptorCheckResults
unfolding memory_contents_mergeable
check op reg prev next = elim op.manipulation [
  | allocating flags content type ↦
      let left = reg.range.start == op.address in
      let right = reg.range.end == u64 (op.address + op.size) in
      record {
        accepted = reg.content == free_content;
        meets_left = left;
        meets_right = right;
        left_mergeable = left && (elim prev [
          | none ↦ false
          | some p ↦
              not (guard_high p.type)
              && not (guard_low type)
              && (p.flags == flags)
              && memory_contents_mergeable p.content content
              && (without_guards p.type == without_guards type)
        ]);
        right_mergeable = right && (elim next [
          | none ↦ false
          | some n ↦
              not (guard_low n.type)
              && not (guard_high type)
              && (n.flags == flags)
              && memory_contents_mergeable n.content content
              && (without_guards n.type == without_guards type)
        ]);
        failure_result = page_free;
      }
  | freeing ↦
      let end_addr = u64 (op.address + op.size) in
      let left =
        (reg.range.start == op.address)
        || (guard_low reg.type && (reg.range.start == u64 (op.address + 2 ^ 64 - page_size))) in
      let right =
        leb reg.range.end end_addr
        || (guard_high reg.type && (reg.range.end == u64 (end_addr + page_size))) in
      record {
        accepted = not (reg.content == free_content);
        meets_left = left;
        meets_right = right;
        left_mergeable = left && (elim prev [ none ↦ false | some p ↦ p.content == free_content ]);
        right_mergeable =
            right && (elim next [ none ↦ false | some n ↦ n.content == free_content ]);
        failure_result = page_free;
      }
]

unfoldable pub repurpose : Manipulation → MemoryRegion → MemoryRegion
repurpose (allocating flags content type) reg = record reg {
  flags = flags;
  content = content;
  type = type;
}
repurpose freeing reg = record reg { flags = 0; content = free_content; type = 0 }

-- The region that `Spawn` inserts; its constructor leaves the links null.
unfoldable pub spawned : Manipulation → ℕ → ℕ → MemoryRegion
unfolding repurpose
spawned m start end = repurpose m (record {
  range = record { start = start; end = end };
  flags = 0;
  type = 0;
  content = 0;
  next = 0;
  prev = 0;
})

-- `CanAllocateAnonymously`: the new `Address`, where the region is large enough.
unfoldable pub can_allocate_anonymously : OperationParameters → MemoryRegion → Option ℕ
unfolding get_size
can_allocate_anonymously op reg =
    if leb op.start_size (get_size reg.range)
    then some (u64 (reg.range.end + 2 ^ 64 - op.start_size))
    else none
