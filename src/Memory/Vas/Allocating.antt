-- ===== src/Memory/Vas/Allocating.antt =====
-- `Vas::Allocate` of beelzebub/src/memory/vas.cpp on a well-formed space.
use beelzebub.Common.{
  ℕ, suc, ◌+◌, ◌^◌, ◌≤◌, ◌<◌, ◌≡◌, ◌≢◌, refl, sym, subst, ap, ◌∙◌, inl, inr, [], Bool, true, false,
  ◌&&◌, ◌==◌, ==_differ, Bool-cases, none, some, Option-cases, u64, arith,
}
use beelzebub.Handles.{is_okay, out_of_memory, object_disposed}
use beelzebub.Avl.Edit.{Allocator}
use beelzebub.Memory.Regions.{MemoryRegion}
use beelzebub.Memory.Vas.{
  Vas, OperationParameters, DescriptorCheckResults, is_allocation, allocating, free_content,
}
use beelzebub.Memory.Vas.Execute.{execute, find_anonymous}
use beelzebub.Memory.Vas.Writes.{Executed, forget}
use beelzebub.Memory.Vas.Calls.{low_offset, allocate_operation, allocate}
use beelzebub.Memory.Vas.Chain.{Use, used_as, AddressMap, chain_le}
use beelzebub.Memory.Vas.Holding.{Laws}
use beelzebub.Memory.Vas.Space.{same_update, Implements}
use beelzebub.Memory.Vas.Updates.{purpose, updated}
use beelzebub.Memory.Pointers.{load}
use beelzebub.Memory.Vas.Manipulating.{low_of, high_of}
use beelzebub.Memory.Vas.Checks.{check-Exact}
use beelzebub.Memory.Vas.Running.{execute-Effect}
use beelzebub.Memory.Vas.Executing.{checked}
use beelzebub.Memory.Vas.Anonymous.{find_anonymous-bounds}

module _ {κ} {S : Type κ} {alloc : Allocator S} (laws : Laws alloc) (g : AddressMap)
    (lo hi : ℕ) where
  -- A range that was free, and is used as asked now.
  pub record Allocated (start size : ℕ) (u : Use) (v : Vas S) : Type 0 where
    pub above : lo ≤ start
    pub below : start + size ≤ hi
    pub was_free : (a : ℕ) → start ≤ a → a < start + size → g a ≡ (free_content, 0)
    pub now : Implements laws (updated g start (start + size) u) lo hi v

  module _ (v : Vas S) (small : hi < 2 ^ 64) (i : Implements laws g lo hi v)
      (op : OperationParameters) (flags content type : ℕ)
      (kind : op.manipulation ≡ allocating flags content type) (dense : op.sparse ≡ false)
      (strict : op.tolerant ≡ false) where
    pub execute-Allocated :
        (fuel : ℕ)
        → op.address ≢ 0
        → 0 < op.size
        → op.address + op.size < 2 ^ 64
        → is_okay (execute alloc (suc fuel) op v).0 ≡ true
        → Allocated op.address op.size (used_as content flags) (execute alloc (suc fuel) op v).2
          × ((execute alloc (suc fuel) op v).1 ≡ op.address)
    execute-Allocated fuel n positive fits okay =
        let whole : u64 (op.address + op.size) ≡ op.address + op.size = omega arith in
        let fixed : (is_allocation op.manipulation && (op.address == 0)) ≡ false =
          let z = ==_differ op.address 0 n in rw z (and_false (is_allocation op.manipulation)) in
        let f = execute-Effect laws g lo hi v op (omega arith) small dense fuel fixed i okay in
        let reg = f.cell.payload in
        let z = forget f.cell.address v in
        let d = checked op reg z in
        let x =
          check-Exact op flags content type reg (load reg.prev z.tree) (load reg.next z.tree)
            kind in
        let start = f.around.here.start in
        let low = f.low in
        let inside = f.inside in
        let fit = f.performed.fits in
        let front = chain_le _ _ _ f.front _ _ _ f.around.front in
        let back = chain_le _ _ _ f.back _ _ _ f.around.back in
        elim f.performed.outcome [
          | inl (accepted, now) ↦ (
            record {
              above = omega arith;
              below = omega arith;
              was_free = λ a l u.
                  sym (f.around.here.shows a (omega arith) (omega arith)) ∙ x.free accepted;
              now =
                  same_update laws g lo hi (execute alloc (suc fuel) op v).2 (low_is reg d x.left)
                    (high reg d x.right ∙ whole) (ap purpose kind) now;
            },
            f.address,
          )
          | inr (_, lenient, _) ↦ absurd (ground arith)
        ]
      where
        and_false : (b : Bool) → (b && false) ≡ false
        and_false true = refl
        and_false false = refl

        low_is :
            (reg : MemoryRegion) (d : DescriptorCheckResults)
            → (d.meets_left ≡ true → reg.range.start ≡ op.address)
            → low_of op reg d ≡ op.address
        low_is reg d h = elim (Bool-cases d.meets_left) [ inl e ↦ rw e (h e) | inr e ↦ rw e refl ]

        high :
            (reg : MemoryRegion) (d : DescriptorCheckResults)
            → (d.meets_right ≡ true → reg.range.end ≡ u64 (op.address + op.size))
            → high_of op reg d ≡ u64 (op.address + op.size)
        high reg d h = elim (Bool-cases d.meets_right) [ inl e ↦ rw e (h e) | inr e ↦ rw e refl ]

-- `Allocate` where `First` is null, and where it is not.
module _ {κ} {S : Type κ} (alloc : Allocator S) (v : Vas S)
    (fuel vaddr size flags content type : ℕ) where
  pub allocate_runs :
      (v.first == 0) ≡ false
      → let done = execute alloc fuel (allocate_operation vaddr size flags content type) v in
        allocate alloc fuel vaddr size flags content type v
        ≡ (done.0, u64 (done.1 + low_offset type), done.2)
  unfolding allocate
  allocate_runs e = rw e refl

  pub allocate_disposed :
      (v.first == 0) ≡ true
      → allocate alloc fuel vaddr size flags content type v ≡ (object_disposed, vaddr, v)
  unfolding allocate
  allocate_disposed e = rw e refl

-- The recursive call of an anonymous allocation.
module _ {κ} {S : Type κ} (alloc : Allocator S) (v : Vas S) (op : OperationParameters) (fuel : ℕ)
    (anywhere : (is_allocation op.manipulation && (op.address == 0)) ≡ true) where
  pub execute_null :
      (v.first == 0) ≡ true → execute alloc (suc fuel) op v ≡ (object_disposed, op.address, v)
  unfolding execute
  execute_null e = rw e refl

  pub execute_nowhere :
      (v.first == 0) ≡ false
      → find_anonymous alloc fuel op v.first v ≡ none
      → execute alloc (suc fuel) op v ≡ (out_of_memory, op.address, v)
  unfolding execute
  execute_nowhere e n = rw (e, anywhere, n) refl

  pub execute_somewhere :
      (a : ℕ)
      → (v.first == 0) ≡ false
      → find_anonymous alloc fuel op v.first v ≡ some a
      → execute alloc (suc fuel) op v ≡ execute alloc fuel (record op { address = a }) v
  unfolding execute
  execute_somewhere a e f = rw (e, anywhere, f) refl

module _ {κ} {S : Type κ} {alloc : Allocator S} (laws : Laws alloc) (g : AddressMap) (lo hi : ℕ)
    (v : Vas S) (small : hi < 2 ^ 64) (i : Implements laws g lo hi v) (op : OperationParameters)
    (flags content type : ℕ) (kind : op.manipulation ≡ allocating flags content type)
    (dense : op.sparse ≡ false) (strict : op.tolerant ≡ false) where
  -- At any address.
  pub execute_anywhere-Allocated :
      (fuel : ℕ)
      → op.address ≡ 0
      → 0 < lo
      → 0 < op.size
      → op.start_size ≡ op.size
      → is_okay (execute alloc (suc (suc fuel)) op v).0 ≡ true
      → Allocated laws g lo hi
          (execute alloc (suc (suc fuel)) op v).1
          op.size
          (used_as content flags)
          (execute alloc (suc (suc fuel)) op v).2
  execute_anywhere-Allocated fuel null positive some_size same okay =
      elim (Bool-cases (v.first == 0)) [
        | inl e ↦ absurd (unlike (execute_null alloc v op (suc fuel) anywhere e) refl)
        | inr e ↦ elim (Option-cases (find_anonymous alloc (suc fuel) op v.first v)) [
          | inl n ↦ absurd (unlike (execute_nowhere alloc v op (suc fuel) anywhere e n) refl)
          | inr (a, f) ↦
              let there = execute_somewhere alloc v op (suc fuel) anywhere a e f in
              let (low, high) =
                find_anonymous-bounds laws g lo hi v op small (suc fuel) [] i.cells 0 lo i.last a
                  i.holding i.chain
                  (subst (λ n. find_anonymous alloc (suc fuel) op n v ≡ some a) i.first f) in
              let op' = record op { address = a } in
              let (done, at) =
                execute-Allocated laws g lo hi v small i op' flags content type kind dense strict
                  fuel (λ z. omega arith) some_size (omega arith)
                  (subst (λ r. is_okay r.0 ≡ true) there okay) in
              rw there (
                subst
                  (λ s.
                    Allocated laws g lo hi s op.size (used_as content flags)
                      (execute alloc (suc fuel) op' v).2)
                  (sym at) done)
        ]
      ]
    where
      anywhere : (is_allocation op.manipulation && (op.address == 0)) ≡ true
      anywhere = rw (kind, null) refl

      unlike : {r : Executed S} → execute alloc (suc (suc fuel)) op v ≡ r → is_okay r.0 ≡ false → ⊥
      unlike {r} e n =
          let q : is_okay r.0 ≡ true = subst (λ r. is_okay r.0 ≡ true) e okay in ground arith
