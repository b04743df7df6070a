-- ===== src/Memory/Vas/Stepping.antt =====
-- One call of `Execute` in beelzebub/src/memory/vas.cpp at an address, by what it finds.
use beelzebub.Common.{ℕ, zero, suc, ◌-◌, ◌≡◌, refl, true, false, not, ◌&&◌, ◌==◌, some, none}
use beelzebub.Handles.{is_okay, object_disposed, failed, argument_out_of_range}
use beelzebub.Avl.Node.{Cell}
use beelzebub.Avl.Edit.{Allocator}
use beelzebub.Memory.Regions.{MemoryRegion, find_region}
use beelzebub.Memory.Vas.{Vas, OperationParameters, is_allocation}
use beelzebub.Memory.Vas.Execute.{execute, execute_at}

pub execute_spent {κ} :
    {S : Type κ} (alloc : Allocator S) (v : Vas S) (op : OperationParameters)
    → execute alloc zero op v ≡ (failed, op.address, v)
unfolding execute
execute_spent alloc v op = refl

module _ {κ} {S : Type κ} (alloc : Allocator S) (v : Vas S) (op : OperationParameters) (fuel : ℕ)
    (fixed : (is_allocation op.manipulation && (op.address == 0)) ≡ false) where
  -- `First` is null.
  pub execute_disposed :
      (v.first == 0) ≡ true → execute alloc (suc fuel) op v ≡ (object_disposed, op.address, v)
  unfolding execute
  execute_disposed e = rw e refl

  pub execute_outside :
      (v.first == 0) ≡ false
      → find_region alloc op.address v.tree ≡ none
      → execute alloc (suc fuel) op v ≡ (argument_out_of_range, op.address, v)
  unfolding execute
  execute_outside e n = rw (e, fixed, n) refl

  module _ (c : Cell MemoryRegion) (e : (v.first == 0) ≡ false)
      (f : find_region alloc op.address v.tree ≡ some c) where
    pub execute_once :
        let done = execute_at alloc op c v in
        (not (done.1 == 0) && is_okay done.0.0) ≡ false
        → execute alloc (suc fuel) op v ≡ (done.0.0, op.address, done.0.1)
    unfolding execute
    execute_once n = rw (e, fixed, f, n) refl

    pub execute_on :
        let done = execute_at alloc op c v in
        (not (done.1 == 0) && is_okay done.0.0) ≡ true
        → execute alloc (suc fuel) op v
          ≡ execute alloc fuel
              (record op { address = done.1; size = op.size - (done.1 - op.address) })
              done.0.1
    unfolding execute
    execute_on n = rw (e, fixed, f, n) refl
