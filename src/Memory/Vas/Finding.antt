-- ===== src/Memory/Vas/Finding.antt =====
-- The region that `Execute` of beelzebub/src/memory/vas.cpp finds for an address of a well-formed space.
use beelzebub.Common.{
  ℕ, ◌≤◌, ◌<◌, ◌≡◌, refl, sym, ap, ◌∙◌, ◌⊎◌, inl, inr, List, [], ◌∷◌, ◌++◌, append-nil, none, some,
  dec_lt, arith,
}
use beelzebub.Avl.Node.{Cell}
use beelzebub.Avl.Edit.{Allocator}
use beelzebub.Avl.Between.{find_between, find_gap}
use beelzebub.Memory.Regions.{MemoryRegion, compare_address, find_region}
use beelzebub.Memory.Vas.{Vas}
use beelzebub.Memory.Vas.Chain.{AddressMap, Chain, chain-IsWithin}
use beelzebub.Memory.Vas.Holding.{Laws}
use beelzebub.Memory.Vas.Space.{Implements, Around}
use beelzebub.Memory.Vas.Around.{address-IsLess, address-IsGreater}
use beelzebub.Memory.Vas.Around.{here-eq}

-- The place of the region that contains an address.
pub record Spot (cells : List (Cell MemoryRegion)) (a : ℕ) : Type 0 where
  pub front : List (Cell MemoryRegion)
  pub cell : Cell MemoryRegion
  pub back : List (Cell MemoryRegion)
  pub whole : cells ≡ front ++ cell ∷ back
  pub low : cell.payload.range.start ≤ a
  pub inside : a < cell.payload.range.end

locate :
    (g : AddressMap) (p lo : ℕ) (cells : List (Cell MemoryRegion)) (q hi n : ℕ)
    → Chain g p lo cells q hi n
    → (a : ℕ) → lo ≤ a
    → a < hi
    → Spot cells a
locate g p lo [] q hi n h a l u = absurd (let e = h.1 in omega arith)
locate g p lo (c ∷ cs) q hi n h a l u =
    let start = h.0.start in
    elim (dec_lt a c.payload.range.end) [
      | yes i ↦ record {
        front = [];
        cell = c;
        back = cs;
        whole = refl;
        low = omega arith;
        inside = i;
      }
      | no i ↦
          let s = locate g _ _ cs q hi n h.1 a (omega arith) u in
          record {
            front = c ∷ s.front;
            cell = s.cell;
            back = s.back;
            whole = ap (◌∷◌ c) s.whole;
            low = s.low;
            inside = s.inside;
          }
    ]

module _ {κ} {S : Type κ} {alloc : Allocator S} (laws : Laws alloc) (g : AddressMap) (lo hi : ℕ)
    (v : Vas S) where
  pub spot : (i : Implements laws g lo hi v) (a : ℕ) → lo ≤ a → a < hi → Spot i.cells a
  spot i a l u = locate g 0 lo i.cells i.last hi 0 i.chain a l u

  pub find_region-around :
      (xs : List (Cell MemoryRegion)) (c : Cell MemoryRegion) (ys : List (Cell MemoryRegion))
      → Around laws g lo hi v xs c ys
      → (a : ℕ) → c.payload.range.start ≤ a
      → a < c.payload.range.end
      → find_region alloc a v.tree ≡ some c
  unfolding find_region
  find_region-around xs c ys w a low inside =
      let start = w.here.start in
      find_between alloc (λ r. compare_address r.range a) v.tree xs c ys w.holding.held
        (address-IsLess a lo w.border xs (omega arith)
          (chain-IsWithin g 0 lo xs w.last w.border c.address lo (omega arith) w.front))
        (here-eq c.payload.range a low inside)
        (address-IsGreater a c.payload.range.end hi ys inside
          (chain-IsWithin g c.address c.payload.range.end ys w.final hi 0 _ (omega arith) w.back))

  -- Outside there is none.
  pub find_region_outside :
      (i : Implements laws g lo hi v) (a : ℕ)
      → (a < lo) ⊎ (hi ≤ a)
      → find_region alloc a v.tree ≡ none
  unfolding find_region
  find_region_outside i a (inl l) =
      find_gap alloc (λ r. compare_address r.range a) v.tree [] i.cells i.holding.held tt
        (address-IsGreater a lo hi i.cells l
          (chain-IsWithin g 0 lo i.cells i.last hi 0 lo (omega arith) i.chain))
  find_region_outside i a (inr l) =
      find_gap alloc (λ r. compare_address r.range a) v.tree i.cells []
        (i.holding.held ∙ sym (append-nil i.cells))
        (address-IsLess a lo hi i.cells l
          (chain-IsWithin g 0 lo i.cells i.last hi 0 lo (omega arith) i.chain))
        tt
