-- ===== src/Memory/Vas/Neighbours.antt =====
-- `reg->Prev` and `reg->Next` in beelzebub/src/memory/vas.cpp, where the space is well formed.
use beelzebub.Common.{
  ℕ, ◌≡◌, ◌≢◌, refl, sym, subst, ap, ◌∙◌, ◌⊎◌, inl, inr, List, [], ◌∷◌, ◌++◌, append_assoc, none,
  some, ◌==◌, ==_iff, Bool-cases, All, All-mono,
}
use beelzebub.Avl.Node.{Cell}
use beelzebub.Avl.Edit.{Allocator}
use beelzebub.Memory.Regions.{MemoryRegion}
use beelzebub.Memory.Pointers.{lookup, load}
use beelzebub.Memory.Places.{addresses}
use beelzebub.Memory.Vas.{Vas}
use beelzebub.Memory.Vas.Chain.{AddressMap, chain-Last}
use beelzebub.Memory.Vas.Holding.{Laws, Holding, load_held, load_second}
use beelzebub.Memory.Vas.Space.{Around}

lookup_null : (cs : List (Cell MemoryRegion)) → All (λ a. a ≢ 0) (addresses cs) → lookup 0 cs ≡ none
unfolding lookup
lookup_null [] h = refl
lookup_null (c ∷ cs) h = elim (Bool-cases (c.address == 0)) [
  | inl e ↦ absurd (h.0 ((==_iff c.address 0).0 e))
  | inr e ↦ rw (e, lookup) (lookup_null cs h.1)
]

module _ {κ} {S : Type κ} {alloc : Allocator S} (laws : Laws alloc) where
  pub load_null :
      (v : Vas S) (cs : List (Cell MemoryRegion)) → Holding laws v cs → load 0 v.tree ≡ none
  unfolding load
  load_null v cs h =
      ap (lookup 0) h.held ∙ lookup_null cs (All-mono (addresses cs) (λ a l. l.0) h.alive)

  module _ (g : AddressMap) (lo hi : ℕ) (v : Vas S) (c : Cell MemoryRegion) where
    -- The region before, which the list ends with.
    pub record Previous (xs : List (Cell MemoryRegion)) : Type 0 where
      pub front : List (Cell MemoryRegion)
      pub cell : Cell MemoryRegion
      pub whole : xs ≡ front ++ cell ∷ []
      pub loaded : load c.payload.prev v.tree ≡ some cell.payload

    pub previous :
        (xs ys : List (Cell MemoryRegion))
        → Around laws g lo hi v xs c ys
        → (load c.payload.prev v.tree ≡ none) ⊎ Previous xs
    previous [] ys w =
        let link : c.payload.prev ≡ 0 = w.here.prev ∙ sym w.front.0 in
        inl (rw link (load_null v (c ∷ ys) w.holding))
    previous (x ∷ xs) ys w =
        let l = chain-Last g 0 lo x xs w.last w.border c.address w.front in
        let link : c.payload.prev ≡ l.cell.address = w.here.prev ∙ sym l.address in
        let held =
          subst (Holding laws v) (append_assoc l.front (l.cell ∷ []) (c ∷ ys))
            (subst (λ cs. Holding laws v (cs ++ c ∷ ys)) l.whole w.holding) in
        inr record {
          front = l.front;
          cell = l.cell;
          whole = l.whole;
          loaded = rw link (load_held laws v l.front l.cell (c ∷ ys) held);
        }

    -- The region behind, which the list starts with.
    pub record Following (ys : List (Cell MemoryRegion)) : Type 0 where
      pub cell : Cell MemoryRegion
      pub rest : List (Cell MemoryRegion)
      pub whole : ys ≡ cell ∷ rest
      pub loaded : load c.payload.next v.tree ≡ some cell.payload

    pub following :
        (xs ys : List (Cell MemoryRegion))
        → Around laws g lo hi v xs c ys
        → (load c.payload.next v.tree ≡ none) ⊎ Following ys
    following xs [] w = inl (rw w.here.next (load_null v (xs ++ c ∷ []) w.holding))
    following xs (y ∷ ys) w = inr record {
      cell = y;
      rest = ys;
      whole = refl;
      loaded = rw w.here.next (load_second laws v xs c y ys w.holding);
    }
