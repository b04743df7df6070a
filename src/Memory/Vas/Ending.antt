-- ===== src/Memory/Vas/Ending.antt =====
-- How often `OperationParameters::Execute` of beelzebub/src/memory/vas.cpp calls itself in a `Vas::Free`.
use beelzebub.Common.{
  ℕ, zero, suc, ◌+◌, ◌-◌, ◌^◌, ◌≤◌, ◌<◌, ◌≡◌, refl, sym, ap, ◌∙◌, ◌⊎◌, inl, inr, Bool, true, false,
  not, ◌&&◌, ◌==◌, ltb, Bool-cases, Ordering, Option, none, some, u64, arith,
}
use beelzebub.Handles.{okay, failed, argument_out_of_range, is_okay}
use beelzebub.Avl.Node.{Cell, Node, null, node}
use beelzebub.Avl.Edit.{Allocator}
use beelzebub.Avl.Edit
use beelzebub.Avl.Tree.{AvlTree, find}
use beelzebub.Memory.Regions.{MemoryRegion, compare_address, find_region}
use beelzebub.Memory.Pointers.{load}
use beelzebub.Memory.Vas.{Vas, OperationParameters, check, permanent}
use beelzebub.Memory.Vas.Writes.{forget}
use beelzebub.Memory.Vas.Execute.{execute, execute_at, manipulate}
use beelzebub.Memory.Vas.Calls.{free_operation, free}
use beelzebub.Memory.Vas.Executing.{choose}
use beelzebub.Memory.Vas.Stepping.{execute_disposed, execute_outside, execute_once, execute_on}

-- What a search finds in any tree, ordered or not.
find_eq {ℓ} :
    {P : Type ℓ} (test : P → Ordering) (t : Node (Cell P)) (c : Cell P)
    → Edit.find test t ≡ some c
    → test c.payload ≡ Ordering.eq
unfolding Edit.find
find_eq test null c e = absurd (ground arith)
find_eq test (node l h d r) c e = at (find_eq test l c) (find_eq test r c) (test d.payload) refl e
  where
    at :
        (Edit.find test l ≡ some c → test c.payload ≡ Ordering.eq)
        → (Edit.find test r ≡ some c → test c.payload ≡ Ordering.eq)
        → (o : Ordering) → test d.payload ≡ o
        → (elim o [
          | Ordering.eq ↦ some d
          | Ordering.gt ↦ Edit.find test l
          | Ordering.lt ↦ Edit.find test r
        ])
          ≡ some c
        → test c.payload ≡ Ordering.eq
    at left right Ordering.eq q x = cc
    at left right Ordering.gt q x = left x
    at left right Ordering.lt q x = right x

find_region-inside {κ} :
    {S : Type κ} (alloc : Allocator S) (a : ℕ) (tree : AvlTree MemoryRegion S)
    (c : Cell MemoryRegion)
    → find_region alloc a tree ≡ some c
    → (c.payload.range.start ≤ a) × (a < c.payload.range.end)
unfolding find_region find
find_region-inside alloc a tree c e =
    let q = find_eq (λ r. compare_address r.range a) tree.root c e in (ground arith, ground arith)

-- Going on is at the end of the region.
pub choose-rest {ℓ} :
    {A : Type ℓ} (beyond sparse accepted permanent tolerant : Bool)
    (outside refused done kept wrong : A) (rest : ℕ)
    → let answer =
        choose beyond sparse accepted permanent tolerant outside refused done kept wrong rest in
      (answer.1 ≡ 0) ⊎ ((beyond ≡ true) × (answer.1 ≡ rest))
choose-rest true true true true t o f d k w r = inl refl
choose-rest true true true false t o f d k w r = inr (refl, refl)
choose-rest true true false p true o f d k w r = inr (refl, refl)
choose-rest true true false p false o f d k w r = inl refl
choose-rest true false a p t o f d k w r = inl refl
choose-rest false s true true t o f d k w r = inl refl
choose-rest false s true false t o f d k w r = inl refl
choose-rest false s false p true o f d k w r = inl refl
choose-rest false s false p false o f d k w r = inl refl

execute_at-rest {κ} :
    {S : Type κ} (alloc : Allocator S) (op : OperationParameters) (c : Cell MemoryRegion)
    (v : Vas S)
    → let done = execute_at alloc op c v in
      (done.1 ≡ 0)
      ⊎ ((done.1 ≡ c.payload.range.end) × (c.payload.range.end < u64 (op.address + op.size)))
unfolding execute_at
execute_at-rest alloc op c v =
    let z = forget c.address v in
    let reg = c.payload in
    let end_addr = u64 (op.address + op.size) in
    let d = check op reg (load reg.prev z.tree) (load reg.next z.tree) in
    elim (choose-rest (ltb reg.range.end end_addr) op.sparse d.accepted (permanent reg.type)
      op.tolerant (argument_out_of_range, z) (failed, z)
      (manipulate alloc op.manipulation op.address end_addr c.address reg d z) (okay, z)
      (d.failure_result, z) reg.range.end) [ inl e ↦ inl e | inr (b, e) ↦ inr (e, ground arith) ]

module _ {κ} {S : Type κ} (alloc : Allocator S) (start_size : ℕ) (sparse tolerant : Bool) where
  abbrev clearing : (vaddr size : ℕ) → OperationParameters
  clearing vaddr size = record (free_operation vaddr size sparse tolerant) {
    start_size = start_size;
  }

  abbrev IsEnough : (fuel more : ℕ) → Type κ
  IsEnough fuel more =
      (v : Vas S) (vaddr size : ℕ)
      → vaddr + size < 2 ^ 64
      → size < fuel
      → size < more
      → execute alloc fuel (clearing vaddr size) v ≡ execute alloc more (clearing vaddr size) v

  execute-IsEnough : (fuel more : ℕ) → IsEnough fuel more
  execute-IsEnough zero more v vaddr size fits x y = absurd (omega arith)
  execute-IsEnough (suc fuel) zero v vaddr size fits x y = absurd (omega arith)
  execute-IsEnough (suc fuel) (suc more) v vaddr size fits x y =
      let op = clearing vaddr size in
      elim (Bool-cases (v.first == 0)) [
        | inl e ↦
            execute_disposed alloc v op fuel refl e ∙ sym (execute_disposed alloc v op more refl e)
        | inr e ↦ at (execute-IsEnough fuel more) e (find_region alloc vaddr v.tree) refl
      ]
    where
      at :
          IsEnough fuel more
          → (v.first == 0) ≡ false
          → (found : Option (Cell MemoryRegion)) → find_region alloc vaddr v.tree ≡ found
          → execute alloc (suc fuel) (clearing vaddr size) v
            ≡ execute alloc (suc more) (clearing vaddr size) v
      at again e none f =
          let op = clearing vaddr size in
          execute_outside alloc v op fuel refl e f ∙ sym (execute_outside alloc v op more refl e f)
      at again e (some c) f =
          let op = clearing vaddr size in
          let done = execute_at alloc op c v in
          let inside = find_region-inside alloc vaddr v.tree c f in
          elim (Bool-cases (not (done.1 == 0) && is_okay done.0.0)) [
            | inr n ↦
                execute_once alloc v op fuel refl c e f n
                ∙ sym (execute_once alloc v op more refl c e f n)
            | inl n ↦ elim (execute_at-rest alloc op c v) [
              | inl q ↦ absurd (ground arith)
              | inr (q, less) ↦
                  execute_on alloc v op fuel refl c e f n
                  ∙ again done.0.1 done.1 (size - (done.1 - vaddr)) (omega arith) (omega arith)
                      (omega arith)
                  ∙ sym (execute_on alloc v op more refl c e f n)
            ]
          ]

-- `Free` ends, on any space, whatever the regions and the links in it: with more fuel than the range
-- has bytes it gives one answer, that no amount of fuel changes. The range ends below 2^64.
pub free_enough {κ} :
    {S : Type κ} (alloc : Allocator S) (fuel more : ℕ) (v : Vas S) (vaddr size : ℕ)
    (sparse tolerant : Bool)
    → vaddr + size < 2 ^ 64
    → size < fuel
    → size < more
    → free alloc fuel vaddr size sparse tolerant v ≡ free alloc more vaddr size sparse tolerant v
unfolding free
free_enough alloc fuel more v vaddr size sparse tolerant fits x y =
    ap (λ r. (r.0, r.2))
      (execute-IsEnough alloc size sparse tolerant fuel more v vaddr size fits x y)
