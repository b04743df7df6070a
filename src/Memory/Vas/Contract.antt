-- ===== src/Memory/Vas/Contract.antt =====
-- What the callers of `Vas::Allocate` and `Vas::Free` of beelzebub/src/memory/vas.cpp get from them.
use beelzebub.Common.{
  ℕ, suc, ◌+◌, ◌-◌, ◌^◌, ◌≤◌, ◌<◌, ◌≡◌, ◌≢◌, refl, sym, subst, ap, ◌∙◌, inl, inr, true, ◌==◌,
  ==_iff, ==_differ, Bool-cases, u64, arith,
}
use beelzebub.Handles.{HandleResult, is_okay, object_disposed}
use beelzebub.Avl.Edit.{Allocator}
use beelzebub.Memory.Vas.{Vas, OperationParameters}
use beelzebub.Memory.Vas.Execute.{execute}
use beelzebub.Memory.Vas.Writes.{Executed}
use beelzebub.Memory.Vas.Calls.{low_offset, high_offset, allocate_operation, allocate}
use beelzebub.Memory.Vas.Chain.{used_as, AddressMap}
use beelzebub.Memory.Vas.Holding.{Laws}
use beelzebub.Memory.Vas.Space.{Implements}
use beelzebub.Memory.Vas.Allocating.{
  Allocated, allocate_runs, allocate_disposed, execute-Allocated, execute_anywhere-Allocated,
}

module _ {κ} {S : Type κ} {alloc : Allocator S} (laws : Laws alloc) (g : AddressMap) (lo hi : ℕ)
    (v : Vas S) (small : hi < 2 ^ 64) (i : Implements laws g lo hi v) (fuel : ℕ) where
  module _ (vaddr size flags content type : ℕ) (positive : 0 < lo) (some_size : 0 < size)
      (short : size + low_offset type + high_offset type < 2 ^ 64)
      (asked : vaddr ≢ 0
        → (low_offset type < vaddr) × (vaddr + size + high_offset type < 2 ^ 64)) where
    abbrev Got : Executed S → Type 0
    Got r =
        (vaddr ≢ 0 → r.1 ≡ vaddr)
        × (low_offset type ≤ r.1)
        × Allocated laws g lo hi (r.1 - low_offset type) (size + low_offset type + high_offset type)
            (used_as content flags) r.2

    abbrev op : OperationParameters
    op = allocate_operation vaddr size flags content type

    got :
        (h : HandleResult) (s n : ℕ) (z : Vas S)
        → n ≡ size + low_offset type + high_offset type
        → (vaddr ≢ 0 → s + low_offset type ≡ vaddr)
        → Allocated laws g lo hi s n (used_as content flags) z
        → Got (h, u64 (s + low_offset type), z)
    got h s n z e there done =
        let above = done.above in
        let below = done.below in
        let whole : u64 (s + low_offset type) ≡ s + low_offset type = omega arith in
        let back : s ≡ u64 (s + low_offset type) - low_offset type = omega arith in
        (
          (λ k. whole ∙ there k),
          omega arith,
          subst
              (λ x.
                Allocated laws g lo hi x (size + low_offset type + high_offset type)
                  (used_as content flags) z)
              back (subst (λ x. Allocated laws g lo hi s x (used_as content flags) z) e done),
        )

    fixed-Got :
        vaddr ≢ 0
        → is_okay (execute alloc (suc (suc fuel)) op v).0 ≡ true
        → let done = execute alloc (suc (suc fuel)) op v in
          Got (done.0, u64 (done.1 + low_offset type), done.2)
    fixed-Got n okay =
        let (l, h) = asked n in
        let no = ==_differ vaddr 0 n in
        let size_is : op.size ≡ size + low_offset type + high_offset type =
          unfold allocate_operation in omega arith in
        let here : op.address + low_offset type ≡ vaddr =
          unfold allocate_operation in rw no (omega arith) in
        let (done, at) =
          execute-Allocated laws g lo hi v small i op flags content type
            (unfold allocate_operation in refl) (unfold allocate_operation in refl)
            (unfold allocate_operation in refl) (suc fuel) (λ z. omega arith) (omega arith)
            (omega arith) okay in
        got (execute alloc (suc (suc fuel)) op v).0 _ op.size _ size_is
          (λ _. ap (λ x. x + low_offset type) at ∙ here)
          (subst
            (λ x.
              Allocated laws g lo hi x op.size (used_as content flags)
                (execute alloc (suc (suc fuel)) op v).2)
            (sym at) done)

    anywhere-Got :
        vaddr ≡ 0
        → is_okay (execute alloc (suc (suc fuel)) op v).0 ≡ true
        → let done = execute alloc (suc (suc fuel)) op v in
          Got (done.0, u64 (done.1 + low_offset type), done.2)
    anywhere-Got n okay =
        let size_is : op.size ≡ size + low_offset type + high_offset type =
          unfold allocate_operation in omega arith in
        let null : op.address ≡ 0 = unfold allocate_operation in rw n refl in
        got (execute alloc (suc (suc fuel)) op v).0 _ op.size _ size_is (λ k. absurd (k n))
          (execute_anywhere-Allocated laws g lo hi v small i op flags content type
            (unfold allocate_operation in refl) (unfold allocate_operation in refl)
            (unfold allocate_operation in refl) fuel null positive (omega arith)
            (unfold allocate_operation in refl) okay)

    -- On a well-formed space of addresses from `lo` > 0 to `hi` < 2^64, an `Allocate` that returns `Okay`
    -- gives the address that it was asked for, or some address where it was asked for null. The range
    -- from there on, with the pages that guard it, lay inside the space and was free; afterwards the
    -- space is well formed, the range has the content and the flags asked for (no flags where that
    -- content is `Free`), and the rest is used as before. The size is not 0, the size with the guard
    -- pages is below 2^64, an address asked for lies above the low guard page, and its range with the
    -- high one ends below 2^64. The allocator of nodes keeps its laws; the fuel is at least 2.
    pub allocate-Allocated :
        let r = allocate alloc (suc (suc fuel)) vaddr size flags content type v in
        is_okay r.0 ≡ true
        → (vaddr ≢ 0 → r.1 ≡ vaddr)
          × (low_offset type ≤ r.1)
          × Allocated laws g lo hi
              (r.1 - low_offset type)
              (size + low_offset type + high_offset type)
              (used_as content flags)
              r.2
    allocate-Allocated okay = elim (Bool-cases (v.first == 0)) [
      | inl e ↦ absurd (
          let q : is_okay object_disposed ≡ true =
            subst (λ r. is_okay r.0 ≡ true)
              (allocate_disposed alloc v (suc (suc fuel)) vaddr size flags content type e) okay in
          ground arith)
      | inr e ↦
          let okay' : is_okay (execute alloc (suc (suc fuel)) op v).0 ≡ true =
            subst (λ r. is_okay r.0 ≡ true)
              (allocate_runs alloc v (suc (suc fuel)) vaddr size flags content type e) okay in
          subst Got (sym (allocate_runs alloc v (suc (suc fuel)) vaddr size flags content type e))
            (elim (Bool-cases (vaddr == 0)) [
              | inl n ↦ anywhere-Got ((==_iff vaddr 0).0 n) okay'
              | inr n ↦ fixed-Got (λ z. ground arith) okay'
            ])
    ]
