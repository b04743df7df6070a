-- ===== src/Memory/Vas/Settling.antt =====
-- How often `OperationParameters::Execute` of beelzebub/src/memory/vas.cpp goes round in a `Vas::Allocate`.
use beelzebub.Common.{
  ℕ, zero, suc, ◌+◌, ◌^◌, ◌≤◌, ◌<◌, ◌≡◌, refl, sym, subst, ap, ◌∙◌, inl, inr, List, [], ◌∷◌, ◌++◌,
  append_assoc, Bool, true, false, not, ◌&&◌, ◌==◌, ==_differ, ltb, if◌then◌else◌, Bool-cases, none,
  some, Option-cases, length, u64, arith,
}
use beelzebub.Handles.{okay, failed, argument_out_of_range, object_disposed, is_okay}
use beelzebub.Avl.Node.{Cell}
use beelzebub.Avl.Edit.{Allocator}
use beelzebub.Memory.Regions.{MemoryRegion, find_region}
use beelzebub.Memory.Pointers.{load}
use beelzebub.Memory.Vas.{
  Vas, OperationParameters, check, permanent, free_content, is_allocation, can_allocate_anonymously,
}
use beelzebub.Memory.Vas.Writes.{forget}
use beelzebub.Memory.Vas.Execute.{execute, execute_at, manipulate, find_anonymous}
use beelzebub.Memory.Vas.Calls.{allocate_operation, allocate, low_offset}
use beelzebub.Memory.Vas.Chain.{AddressMap, Chain, first_of}
use beelzebub.Memory.Vas.Holding.{Laws, Holding, load_held}
use beelzebub.Memory.Vas.Space.{Implements}
use beelzebub.Memory.Vas.Neighbours.{load_null}
use beelzebub.Memory.Vas.Executing.{choose}
use beelzebub.Memory.Vas.Allocating.{execute_null, execute_nowhere, execute_somewhere}
use beelzebub.Memory.Vas.Anonymous.{
  find_anonymous-bounds, find_anonymous_end, find_anonymous_here, find_anonymous_small,
  find_anonymous_used,
}
use beelzebub.Memory.Vas.Stepping.{execute_disposed, execute_outside, execute_once}

choose_dense {ℓ} :
    {A : Type ℓ} (beyond accepted permanent tolerant : Bool) (outside refused done kept wrong : A)
    (rest : ℕ)
    → (choose beyond false accepted permanent tolerant outside refused done kept wrong rest).1 ≡ 0
choose_dense true a p t o f d k w r = refl
choose_dense false true true t o f d k w r = refl
choose_dense false true false t o f d k w r = refl
choose_dense false false p true o f d k w r = refl
choose_dense false false p false o f d k w r = refl

module _ {κ} {S : Type κ} (alloc : Allocator S) (op : OperationParameters)
    (dense : op.sparse ≡ false) (v : Vas S) where
  execute_at_dense : (c : Cell MemoryRegion) → (execute_at alloc op c v).1 ≡ 0
  unfolding execute_at
  execute_at_dense c =
      let z = forget c.address v in
      let reg = c.payload in
      let end_addr = u64 (op.address + op.size) in
      let d = check op reg (load reg.prev z.tree) (load reg.next z.tree) in
      rw dense (
        choose_dense (ltb reg.range.end end_addr) d.accepted (permanent reg.type) op.tolerant
          (argument_out_of_range, z) (failed, z)
          (manipulate alloc op.manipulation op.address end_addr c.address reg d z) (okay, z)
          (d.failure_result, z) reg.range.end)

  -- At an address one call is all.
  execute_dense :
      (fuel more : ℕ)
      → (is_allocation op.manipulation && (op.address == 0)) ≡ false
      → execute alloc (suc fuel) op v ≡ execute alloc (suc more) op v
  execute_dense fuel more fixed = elim (Bool-cases (v.first == 0)) [
    | inl e ↦
        execute_disposed alloc v op fuel fixed e ∙ sym (execute_disposed alloc v op more fixed e)
    | inr e ↦ elim (Option-cases (find_region alloc op.address v.tree)) [
      | inl f ↦
          execute_outside alloc v op fuel fixed e f
          ∙ sym (execute_outside alloc v op more fixed e f)
      | inr (c, f) ↦
          let stop : (not ((execute_at alloc op c v).1 == 0)
                && is_okay (execute_at alloc op c v).0.0)
              ≡ false =
            rw (execute_at_dense c) refl in
          execute_once alloc v op fuel fixed c e f stop
          ∙ sym (execute_once alloc v op more fixed c e f stop)
    ]
  ]

module _ {κ} {S : Type κ} {alloc : Allocator S} (laws : Laws alloc) (g : AddressMap) (lo hi : ℕ)
    (v : Vas S) (op : OperationParameters) (small : hi < 2 ^ 64) where
  find_anonymous_settled :
      (fuel more : ℕ) (xs cs : List (Cell MemoryRegion)) (p b q : ℕ)
      → length cs ≤ fuel
      → length cs ≤ more
      → Holding laws v (xs ++ cs)
      → Chain g p b cs q hi 0
      → find_anonymous alloc fuel op (first_of cs 0) v
        ≡ find_anonymous alloc more op (first_of cs 0) v
  find_anonymous_settled fuel more xs [] p b q x y h k = nowhere fuel ∙ sym (nowhere more)
    where
      nowhere : (n : ℕ) → find_anonymous alloc n op 0 v ≡ none
      nowhere zero = unfold find_anonymous in refl
      nowhere (suc n) =
          find_anonymous_end laws g lo hi v op small n 0 (load_null laws v (xs ++ []) h)
  find_anonymous_settled zero more xs (c ∷ cs) p b q x y h k = absurd (omega arith)
  find_anonymous_settled (suc fuel) zero xs (c ∷ cs) p b q x y h k = absurd (omega arith)
  find_anonymous_settled (suc fuel) (suc more) xs (c ∷ cs) p b q x y h k =
      let l = load_held laws v xs c cs h in
      let rest =
        find_anonymous_settled fuel more (xs ++ c ∷ []) cs c.address c.payload.range.end q
          (omega arith) (omega arith) (subst (Holding laws v) (sym (append_assoc xs (c ∷ []) cs)) h)
          k.1 in
      let further : find_anonymous alloc fuel op c.payload.next v
          ≡ find_anonymous alloc more op c.payload.next v =
        subst (λ n. find_anonymous alloc fuel op n v ≡ find_anonymous alloc more op n v)
          (sym k.0.next) rest in
      elim (Bool-cases (c.payload.content == free_content)) [
        | inl f ↦ elim (Option-cases (can_allocate_anonymously op c.payload)) [
          | inl n ↦
              find_anonymous_small laws g lo hi v op small fuel c.address c.payload l n
              ∙ further
              ∙ sym (find_anonymous_small laws g lo hi v op small more c.address c.payload l n)
          | inr (x, m) ↦
              find_anonymous_here laws g lo hi v op small fuel c.address c.payload x l f m
              ∙ sym (find_anonymous_here laws g lo hi v op small more c.address c.payload x l f m)
        ]
        | inr f ↦
            find_anonymous_used laws g lo hi v op small fuel c.address c.payload l f
            ∙ further
            ∙ sym (find_anonymous_used laws g lo hi v op small more c.address c.payload l f)
      ]

module _ {κ} {S : Type κ} {alloc : Allocator S} (laws : Laws alloc) (g : AddressMap) (lo hi : ℕ)
    (v : Vas S) (positive : 0 < lo) (small : hi < 2 ^ 64) (i : Implements laws g lo hi v) where
  execute_settled :
      (op : OperationParameters) (fuel more : ℕ)
      → op.sparse ≡ false
      → length i.cells ≤ suc fuel
      → length i.cells ≤ suc more
      → execute alloc (suc (suc fuel)) op v ≡ execute alloc (suc (suc more)) op v
  execute_settled op fuel more dense x y =
      elim (Bool-cases (is_allocation op.manipulation && (op.address == 0))) [
        | inr fixed ↦ execute_dense alloc op dense v (suc fuel) (suc more) fixed
        | inl anywhere ↦ elim (Bool-cases (v.first == 0)) [
          | inl e ↦
              execute_null alloc v op (suc fuel) anywhere e
              ∙ sym (execute_null alloc v op (suc more) anywhere e)
          | inr e ↦ elim (Option-cases (find_anonymous alloc (suc fuel) op v.first v)) [
            | inl n ↦
                execute_nowhere alloc v op (suc fuel) anywhere e n
                ∙ sym (execute_nowhere alloc v op (suc more) anywhere e (sym same ∙ n))
            | inr (a, f) ↦
                let (low, high) =
                  find_anonymous-bounds laws g lo hi v op small (suc fuel) [] i.cells 0 lo i.last a
                    i.holding i.chain
                    (subst (λ n. find_anonymous alloc (suc fuel) op n v ≡ some a) i.first f) in
                let placed : (a == 0) ≡ false = ==_differ a 0 (λ z. omega arith) in
                let fixed : (is_allocation op.manipulation && (a == 0)) ≡ false = ground arith in
                execute_somewhere alloc v op (suc fuel) anywhere a e f
                ∙ execute_dense alloc (record op { address = a }) dense v fuel more fixed
                ∙ sym (execute_somewhere alloc v op (suc more) anywhere a e (sym same ∙ f))
          ]
        ]
      ]
    where
      same :
          find_anonymous alloc (suc fuel) op v.first v
          ≡ find_anonymous alloc (suc more) op v.first v
      same =
          subst
            (λ n. find_anonymous alloc (suc fuel) op n v ≡ find_anonymous alloc (suc more) op n v)
            (sym i.first)
            (find_anonymous_settled laws g lo hi v op small (suc fuel) (suc more) [] i.cells 0 lo
              i.last x y i.holding i.chain)

  -- On a well-formed space of addresses from `lo` > 0 to `hi` < 2^64, `Allocate` ends, at a given
  -- address or at any: with fuel for two steps more than there are regions it gives one answer, that no
  -- amount of fuel changes. The allocator of nodes keeps its laws.
  pub allocate_enough :
      (fuel more vaddr size flags content type : ℕ)
      → length i.cells + 2 ≤ fuel
      → length i.cells + 2 ≤ more
      → allocate alloc fuel vaddr size flags content type v
        ≡ allocate alloc more vaddr size flags content type v
  unfolding allocate allocate_operation
  allocate_enough (suc (suc fuel)) (suc (suc more)) vaddr size flags content type x y =
      let op = allocate_operation vaddr size flags content type in
      ap
        (λ r.
          if v.first == 0
          then (object_disposed, vaddr, v)
          else (r.0, u64 (r.1 + low_offset type), r.2))
        (execute_settled op fuel more refl (omega arith) (omega arith))
  allocate_enough zero more vaddr size flags content type x y = absurd (omega arith)
  allocate_enough (suc zero) more vaddr size flags content type x y = absurd (omega arith)
  allocate_enough (suc (suc fuel)) zero vaddr size flags content type x y = absurd (omega arith)
  allocate_enough (suc (suc fuel)) (suc zero) vaddr size flags content type x y =
      absurd (omega arith)
