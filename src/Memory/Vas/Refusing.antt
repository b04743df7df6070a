-- ===== src/Memory/Vas/Refusing.antt =====
-- `Vas::Allocate` and `Vas::Free` of beelzebub/src/memory/vas.cpp where they fail.
use beelzebub.Common.{
  ℕ, suc, ◌+◌, ◌-◌, ◌^◌, ◌<◌, ◌≡◌, ◌≢◌, refl, subst, inl, inr, [], Bool, true, false, ◌&&◌, ◌==◌,
  ==_differ, Bool-cases, some, Option-cases, arith,
}
use beelzebub.Handles.{okay, is_okay}
use beelzebub.Avl.Edit.{Allocator}
use beelzebub.Memory.Vas.{Vas, OperationParameters, is_allocation}
use beelzebub.Memory.Vas.Execute.{execute, find_anonymous}
use beelzebub.Memory.Vas.Calls.{
  low_offset, high_offset, allocate_operation, free_operation, allocate, free,
}
use beelzebub.Memory.Vas.Chain.{AddressMap}
use beelzebub.Memory.Vas.Holding.{Laws}
use beelzebub.Memory.Vas.Space.{Implements}
use beelzebub.Memory.Vas.Around.{IsEndless}
use beelzebub.Memory.Vas.Executing.{Keeps}
use beelzebub.Memory.Vas.Running.{execute_refused-Keeps}
use beelzebub.Memory.Vas.Allocating.{
  allocate_runs, allocate_disposed, execute_null, execute_nowhere, execute_somewhere,
}
use beelzebub.Memory.Vas.Anonymous.{find_anonymous-bounds}

module _ {κ} {S : Type κ} {alloc : Allocator S} (laws : Laws alloc) (endless : IsEndless alloc)
    (g : AddressMap) (lo hi : ℕ) (v : Vas S) (small : hi < 2 ^ 64) (i : Implements laws g lo hi v)
    (fuel : ℕ) where
  anywhere-Keeps :
      (op : OperationParameters)
      → op.sparse ≡ false
      → op.start_size ≡ op.size
      → 0 < op.size
      → 0 < lo
      → (is_allocation op.manipulation && (op.address == 0)) ≡ true
      → is_okay (execute alloc (suc (suc fuel)) op v).0 ≡ false
      → Keeps v (execute alloc (suc (suc fuel)) op v).2
  anywhere-Keeps op dense same some_size positive anywhere n = elim (Bool-cases (v.first == 0)) [
    | inl e ↦ rw (execute_null alloc v op (suc fuel) anywhere e) (inl refl)
    | inr e ↦ elim (Option-cases (find_anonymous alloc (suc fuel) op v.first v)) [
      | inl f ↦ rw (execute_nowhere alloc v op (suc fuel) anywhere e f) (inl refl)
      | inr (a, f) ↦
          let there = execute_somewhere alloc v op (suc fuel) anywhere a e f in
          let (low, high) =
            find_anonymous-bounds laws g lo hi v op small (suc fuel) [] i.cells 0 lo i.last a
              i.holding i.chain
              (subst (λ n. find_anonymous alloc (suc fuel) op n v ≡ some a) i.first f) in
          rw there (
            execute_refused-Keeps laws g lo hi v (record op { address = a }) (omega arith) small
              dense fuel
              (let z = ==_differ a 0 (λ z. omega arith) in
                rw z (and_false (is_allocation op.manipulation)))
              endless i (subst (λ r. is_okay r.0 ≡ false) there n))
    ]
  ]
    where
      and_false : (b : Bool) → (b && false) ≡ false
      and_false true = refl
      and_false false = refl

  -- Where memory for nodes does not run out, an `Allocate` on a well-formed space from `lo` > 0 to
  -- `hi` < 2^64 that does not return `Okay` leaves the space as it was: the tree of its regions with all
  -- that they hold, the state of the allocator and `First`. Only `LastSearched` may have become null. The
  -- size is not 0, the size with the guard pages is below 2^64, an address asked for lies above the low
  -- guard page and its range with the high one ends below 2^64; the allocator of nodes keeps its laws,
  -- and the fuel is at least 2.
  pub allocate_refused-Keeps :
      (vaddr size flags content type : ℕ)
      → 0 < lo
      → 0 < size
      → size + low_offset type + high_offset type < 2 ^ 64
      → (vaddr ≢ 0 → (low_offset type < vaddr) × (vaddr + size + high_offset type < 2 ^ 64))
      → (allocate alloc (suc (suc fuel)) vaddr size flags content type v).0 ≢ okay
      → Keeps v (allocate alloc (suc (suc fuel)) vaddr size flags content type v).2
  unfolding allocate_operation
  allocate_refused-Keeps vaddr size flags content type positive some_size short asked n =
      let op = allocate_operation vaddr size flags content type in
      elim (Bool-cases (v.first == 0)) [
        | inl e ↦
            rw (allocate_disposed alloc v (suc (suc fuel)) vaddr size flags content type e)
              (inl refl)
        | inr e ↦
            let runs = allocate_runs alloc v (suc (suc fuel)) vaddr size flags content type e in
            let n' : (execute alloc (suc (suc fuel)) op v).0 ≢ okay =
              subst (λ r. r.0 ≢ okay) runs n in
            let bad : is_okay (execute alloc (suc (suc fuel)) op v).0 ≡ false = ground arith in
            rw runs (elim (Bool-cases (vaddr == 0)) [
              | inl z ↦ anywhere-Keeps op refl refl (omega arith) positive (rw z refl) bad
              | inr z ↦
                  let (l, h) = asked (λ q. ground arith) in
                  let where_is : op.address ≡ vaddr - low_offset type = rw z (omega arith) in
                  execute_refused-Keeps laws g lo hi v op (omega arith) small refl (suc fuel)
                    (==_differ op.address 0 (λ q. omega arith)) endless i bad
            ])
      ]

  pub free_refused-Keeps :
      (vaddr size : ℕ) (tolerant : Bool)
      → 0 < size
      → vaddr + size < 2 ^ 64
      → (free alloc (suc fuel) vaddr size false tolerant v).0 ≢ okay
      → Keeps v (free alloc (suc fuel) vaddr size false tolerant v).1
  unfolding free
  free_refused-Keeps vaddr size tolerant some_size fits n =
      execute_refused-Keeps laws g lo hi v (free_operation vaddr size false tolerant) (omega arith)
        small refl fuel refl endless i (ground arith)
