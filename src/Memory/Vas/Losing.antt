-- ===== src/Memory/Vas/Losing.antt =====
-- What `Execute` of beelzebub/src/memory/vas.cpp leaves where there is no memory for the region that it
-- inserts behind a shorter one.
use beelzebub.Common.{
  ℕ, ◌≤◌, ◌<◌, ◌≡◌, refl, sym, subst, ap, ◌∙◌, List, [], ◌∷◌, ◌++◌, append_assoc, false, none,
  All-append, arith,
}
use beelzebub.Handles.{is_okay}
use beelzebub.Avl.Node.{Cell}
use beelzebub.Avl.Edit.{Allocator}
use beelzebub.Avl.Edit
use beelzebub.Avl.Heights.Edits.{descend_refused}
use beelzebub.Avl.Tree.{AvlTree, Outcome, find}
use beelzebub.Avl.Tree
use beelzebub.Avl.Between.{gap-allocated, find_gap}
use beelzebub.Memory.Pointers.{modify}
use beelzebub.Memory.Places.{put}
use beelzebub.Memory.Regions.{MemoryRegion, compare_regions, compare_address, find_region}
use beelzebub.Memory.Vas.{Vas, Manipulation, spawned}
use beelzebub.Memory.Vas.Execute.{insert_region, split_high, link_behind}
use beelzebub.Memory.Vas.Writes.{Result, on_tree, unless_lost, shrink_high}
use beelzebub.Memory.Vas.Chain.{AddressMap, chain-IsWithin}
use beelzebub.Memory.Vas.Holding.{Laws, Holding, write_held}
use beelzebub.Memory.Vas.Space.{Around}
use beelzebub.Memory.Vas.Around.{
  below-IsLess, above-IsGreater, address-IsLess, address-IsGreater, spawned-start, spawned-end,
}

unless_lost_refused {κ} :
    {S : Type κ} (o : Outcome MemoryRegion S) (v : Vas S) (next : ℕ → Vas S → Result S)
    → is_okay o.result ≡ false
    → unless_lost o v next ≡ (o.result, record v { tree = o.tree })
unless_lost_refused o v next n = rw n refl

insert_refused {κ} :
    {S : Type κ} (alloc : Allocator S) (reg : MemoryRegion) (v : Vas S)
    → is_okay (insert_region alloc reg v).result ≡ false
    → (insert_region alloc reg v).tree.root ≡ v.tree.root
unfolding Tree.insert Edit.insert
insert_refused alloc reg v n = descend_refused alloc _ reg v.tree.root v.tree.cookie n

module _ {κ} {S : Type κ} {alloc : Allocator S} (laws : Laws alloc) (m : Manipulation)
    (vaddr end_addr : ℕ) (g : AddressMap) (lo hi : ℕ) (v : Vas S) (xs : List (Cell MemoryRegion))
    (c : Cell MemoryRegion) (ys : List (Cell MemoryRegion))
    (w : Around laws g lo hi v xs c ys) where
  -- Where the allocation of a node fails, the case that would insert a region behind a shorter one
  -- returns the allocator's result with the region already shortened: `FindRegion` then finds nothing
  -- at the addresses from the operation's on up to the region's old end. The space was well formed,
  -- the operation's address lies inside the region and not at its start, and the allocator of nodes
  -- keeps its laws.
  pub split_high-lost :
      c.payload.range.start < vaddr
      → vaddr < c.payload.range.end
      → is_okay (alloc.allocate v.tree.cookie).result ≡ false
      → let r = split_high alloc m vaddr end_addr c.address c.payload v in
        (r.0 ≡ (alloc.allocate v.tree.cookie).result)
        × ((a : ℕ) → vaddr ≤ a → a < c.payload.range.end → find_region alloc a r.1.tree ≡ none)
  unfolding split_high find_region find modify
  split_high-lost low high n =
      let e = c.payload.range.end in
      let reg = spawned m vaddr e in
      let r_start = spawned-start m vaddr e in
      let r_end = spawned-end m vaddr e in
      let border = w.here.start in
      let c1 = put (shrink_high vaddr) c in
      let v1 = on_tree (modify c.address (shrink_high vaddr)) v in
      let held : Holding laws v1 ((xs ++ c1 ∷ []) ++ ys) =
        subst (Holding laws v1) (sym (append_assoc xs (c1 ∷ []) ys))
          (write_held laws v xs c ys (shrink_high vaddr) w.holding) in
      let front = chain-IsWithin g 0 lo xs w.last w.border c.address lo (omega arith) w.front in
      let back = chain-IsWithin g c.address e ys w.final hi 0 e (omega arith) w.back in
      let same =
        gap-allocated alloc compare_regions reg v1.tree (xs ++ c1 ∷ []) ys held.held
          (All-append _ xs (c1 ∷ []) (below-IsLess reg lo w.border xs (omega arith) front) (
            below-IsLess reg c.payload.range.start vaddr (c1 ∷ []) (omega arith)
              ((omega arith, low, omega arith), tt)))
          (above-IsGreater reg e hi ys (omega arith) (omega arith) back) in
      let n' : is_okay (insert_region alloc reg v1).result ≡ false = rw same n in
      let lost =
        unless_lost_refused (insert_region alloc reg v1) v1
          (link_behind alloc m vaddr end_addr c.address c.payload) n' in
      (
        ap (λ r. r.0) lost ∙ same,
        λ a l u.
            ap (λ r. Edit.find (λ reg. compare_address reg.range a) r.1.tree.root) lost
            ∙ ap (Edit.find (λ reg. compare_address reg.range a)) (insert_refused alloc reg v1 n')
            ∙ find_gap alloc (λ r. compare_address r.range a) v1.tree (xs ++ c1 ∷ []) ys held.held
                (All-append _ xs (c1 ∷ []) (address-IsLess a lo w.border xs (omega arith) front) (
                  address-IsLess a c.payload.range.start vaddr (c1 ∷ []) (omega arith)
                    ((omega arith, low, omega arith), tt)))
                (address-IsGreater a e hi ys u back),
      )
