-- ===== src/Memory/Vas/Calls.antt =====
-- The operations of `Vas` in beelzebub/src/memory/vas.cpp.
use beelzebub.Common.{ℕ, ◌+◌, ◌-◌, ◌^◌, Bool, false, ◌==◌, if◌then◌else◌, u64, none, some}
use beelzebub.Handles.{okay, object_disposed}
use beelzebub.Avl.Node.{null}
use beelzebub.Avl.Edit.{Allocator}
use beelzebub.Avl.Tree
use beelzebub.Memory.Regions.{compare_regions}
use beelzebub.Memory.Vas.{
  Vas, allocating, freeing, OperationParameters, guard_low, guard_high, page_size, spawned,
}
use beelzebub.Memory.Vas.Execute.{execute}
use beelzebub.Memory.Vas.Writes.{Result, Executed}

-- `lowOffset` and `highOffset`.
abbrev pub low_offset : ℕ → ℕ
low_offset type = if guard_low type then page_size else 0

abbrev pub high_offset : ℕ → ℕ
high_offset type = if guard_high type then page_size else 0

-- The `AllocateOperation` of a call.
unfoldable pub allocate_operation : (vaddr size flags content type : ℕ) → OperationParameters
allocate_operation vaddr size flags content type =
    let effective_size = u64 (size + low_offset type + high_offset type) in
    record {
      start_size = effective_size;
      address = if vaddr == 0 then 0 else u64 (vaddr + 2 ^ 64 - low_offset type);
      size = effective_size;
      sparse = false;
      tolerant = false;
      manipulation = allocating flags content type;
    }

-- The `FreeOperation` of a call.
abbrev pub free_operation : (vaddr size : ℕ) → (sparse tolerant : Bool) → OperationParameters
free_operation vaddr size sparse tolerant = record {
  start_size = size;
  address = vaddr;
  size = size;
  sparse = sparse;
  tolerant = tolerant;
  manipulation = freeing;
}

module _ {κ} {S : Type κ} (alloc : Allocator S) where
  -- The space starts without a region, with the allocator's state `s` behind its tree.
  unfoldable pub initialize : (start end : ℕ) → S → Result S
  unfolding spawned
  initialize start end s =
      let o =
        Tree.insert alloc compare_regions (spawned freeing start end)
          (record { root = null; node_count = 0; cookie = s }) in
      (
        o.result,
        record {
          tree = o.tree;
          first = elim o.payload [ none ↦ 0 | some c ↦ c.address ];
          last_searched = 0;
        },
      )

  -- `vaddr` is also where the caller finds the address, whatever the result is.
  unfoldable pub allocate : ℕ → (vaddr size flags content type : ℕ) → Vas S → Executed S
  unfolding allocate_operation execute
  allocate fuel vaddr size flags content type v =
      if v.first == 0
      then (object_disposed, vaddr, v)
      else let done = execute alloc fuel (allocate_operation vaddr size flags content type) v in
        (done.0, u64 (done.1 + low_offset type), done.2)

  unfoldable pub free : ℕ → (vaddr size : ℕ) → (sparse tolerant : Bool) → Vas S → Result S
  unfolding execute
  free fuel vaddr size sparse tolerant v =
      let done = execute alloc fuel (free_operation vaddr size sparse tolerant) v in
      (done.0, done.2)

-- `Modify`, which changes nothing yet.
unfoldable pub modify {κ} : {S : Type κ} → (vaddr size flags : ℕ) → Vas S → Result S
modify vaddr size flags v = if v.first == 0 then (object_disposed, v) else (okay, v)
