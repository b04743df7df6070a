-- ===== src/Memory/Lookup.antt =====
-- `Vas::FindRegion` of beelzebub/src/memory/vas.cpp and the comparisons of regions.cpp that it stands on.
use beelzebub.Common.{
  ℕ, ◌≡◌, ◌≢◌, inl, inr, List, [], ◌∷◌, true, false, Option, none, some, Ordering, Ordering-cases,
  All, arith,
}
use beelzebub.Avl.Node.{Cell}
use beelzebub.Avl.Edit.{Allocator}
use beelzebub.Avl.Sequence.{IsCut, find_first}
use beelzebub.Avl.Contents.{by_payload, find-find_first}
use beelzebub.Avl.Order.{IsSorted}
use beelzebub.Avl.Tree.{AvlTree, find}
use beelzebub.Avl.Invariant.{IsWellFormed, contents, by_payloads}
use beelzebub.Memory.Ranges.{IsProper}
use beelzebub.Memory.Regions.{
  MemoryRange, MemoryRegion, contains, compare_ranges, compare_address, compare_regions,
  find_region,
}

abbrev pub at_address : ℕ → MemoryRegion → Ordering
at_address vaddr reg = compare_address reg.range vaddr

-- The regions of a tree are not empty.
abbrev pub AreProper : List (Cell MemoryRegion) → Type 0
AreProper cs = All (λ c. IsProper c.payload.range) cs

-- The regions behind one that is not before the address are behind the address.
after-IsGreater :
    (vaddr : ℕ) (c : Cell MemoryRegion) (cs : List (Cell MemoryRegion))
    → All (λ d. compare_regions c.payload d.payload ≡ Ordering.lt) cs
    → AreProper cs
    → at_address vaddr c.payload ≢ Ordering.lt
    → All (λ d. at_address vaddr d.payload ≡ Ordering.gt) cs
after-IsGreater vaddr c [] s p n = tt
after-IsGreater vaddr c (d ∷ ds) s p n =
    (step c.payload.range d.payload.range s.0 p.0 n, after-IsGreater vaddr c ds s.1 p.1 n)
  where
    step :
        (a b : MemoryRange)
        → compare_ranges a b ≡ Ordering.lt
        → IsProper b
        → compare_address a vaddr ≢ Ordering.lt
        → compare_address b vaddr ≡ Ordering.gt
    step a b l p n = ground arith

regions-IsCut :
    (vaddr : ℕ) (cs : List (Cell MemoryRegion))
    → IsSorted (by_payloads compare_regions) cs
    → AreProper cs
    → IsCut (by_payload (at_address vaddr)) cs
regions-IsCut vaddr [] s p = tt
regions-IsCut vaddr (c ∷ cs) s p =
    ((λ e. regions-IsCut vaddr cs s.1 p.1), (λ n. after-IsGreater vaddr c cs s.0 p.1 n))

eq-contains :
    (r : MemoryRange) (vaddr : ℕ) → compare_address r vaddr ≡ Ordering.eq → contains vaddr r ≡ true
unfolding contains
eq-contains r vaddr e = ground arith

ne-contains :
    (r : MemoryRange) (vaddr : ℕ) → compare_address r vaddr ≢ Ordering.eq → contains vaddr r ≡ false
unfolding contains
ne-contains r vaddr e = ground arith

-- What a search for an address may answer, of all the regions.
abbrev pub Located : ℕ → List (Cell MemoryRegion) → Option (Cell MemoryRegion) → Type 0
Located vaddr all none = All (λ c. contains vaddr c.payload.range ≡ false) all
Located vaddr all (some c) = contains vaddr c.payload.range ≡ true

greater-outside :
    (vaddr : ℕ) (cs : List (Cell MemoryRegion))
    → All (λ c. at_address vaddr c.payload ≡ Ordering.gt) cs
    → All (λ c. contains vaddr c.payload.range ≡ false) cs
greater-outside vaddr [] h = tt
greater-outside vaddr (c ∷ cs) h = (
  ne-contains c.payload.range vaddr (λ e. let g = h.0 in ground arith),
  greater-outside vaddr cs h.1,
)

first-Located :
    (vaddr : ℕ) (cs : List (Cell MemoryRegion))
    → IsCut (by_payload (at_address vaddr)) cs
    → Located vaddr cs (find_first (by_payload (at_address vaddr)) cs)
unfolding find_first
first-Located vaddr [] k = tt
first-Located vaddr (c ∷ cs) k = elim (Ordering-cases (at_address vaddr c.payload)) [
  | inl e ↦
      rw (e, find_first)
        (skip (find_first (by_payload (at_address vaddr)) cs)
          (ne-contains c.payload.range vaddr (λ q. ground arith)) (first-Located vaddr cs (k.0 e)))
  | inr (inl e) ↦ rw (e, find_first) (eq-contains c.payload.range vaddr e)
  | inr (inr e) ↦
      rw (e, find_first)
        (
          ne-contains c.payload.range vaddr (λ q. ground arith),
          greater-outside vaddr cs (k.1 (λ q. ground arith)),
        )
]
  where
    skip :
        (o : Option (Cell MemoryRegion))
        → contains vaddr c.payload.range ≡ false
        → Located vaddr cs o
        → Located vaddr (c ∷ cs) o
    skip none n h = (n, h)
    skip (some d) n h = h

-- In a well-formed tree of regions that are not empty, `FindRegion` gives a region that contains the
-- address, and null only where no region does.
pub find_region-Located {κ} :
    {S : Type κ} (alloc : Allocator S) (vaddr : ℕ) (tree : AvlTree MemoryRegion S)
    → IsWellFormed compare_regions tree
    → AreProper (contents tree)
    → Located vaddr (contents tree) (find_region alloc vaddr tree)
unfolding find_region find
find_region-Located alloc vaddr tree wf proper =
    let cut = regions-IsCut vaddr (contents tree) wf.sorted proper in
    rw (find-find_first (at_address vaddr) tree.root cut) (first-Located vaddr (contents tree) cut)
