-- ===== src/Memory/Vas/Space.antt =====
-- When a `Vas` of beelzebub/src/memory/vas.cpp is well formed.
use beelzebub.Common.{ℕ, ◌≡◌, sym, subst, ap, ◌∙◌, List, [], ◌∷◌, ◌++◌, append_assoc}
use beelzebub.Avl.Node.{Cell}
use beelzebub.Avl.Edit.{Allocator}
use beelzebub.Memory.Regions.{MemoryRegion}
use beelzebub.Memory.Vas.{Vas}
use beelzebub.Memory.Vas.Chain.{
  Use, AddressMap, Linked, Chain, chain-Split, chain_join, chain_agree, first_of, first_of-append,
}
use beelzebub.Memory.Vas.Holding.{Laws, Holding}
use beelzebub.Memory.Vas.Updates.{updated}

module _ {κ} {S : Type κ} {alloc : Allocator S} (laws : Laws alloc) where
  -- The regions cover the addresses from `lo` up to `hi`, and show what the map says.
  pub record Implements (g : AddressMap) (lo hi : ℕ) (v : Vas S) : Type 0 where
    pub cells : List (Cell MemoryRegion)
    pub last : ℕ
    pub holding : Holding laws v cells
    pub first : v.first ≡ first_of cells 0
    pub chain : Chain g 0 lo cells last hi 0

  -- The same around one of the regions.
  pub record Around (g : AddressMap) (lo hi : ℕ) (v : Vas S) (xs : List (Cell MemoryRegion))
      (c : Cell MemoryRegion) (ys : List (Cell MemoryRegion)) : Type 0 where
    pub last : ℕ
    pub border : ℕ
    pub final : ℕ
    pub holding : Holding laws v (xs ++ c ∷ ys)
    pub first : v.first ≡ first_of xs c.address
    pub front : Chain g 0 lo xs last border c.address
    pub here : Linked g last border (first_of ys 0) c.payload
    pub back : Chain g c.address c.payload.range.end ys final hi 0

  pub around :
      (g : AddressMap) (lo hi : ℕ) (v : Vas S) (i : Implements g lo hi v)
      (xs : List (Cell MemoryRegion)) (c : Cell MemoryRegion) (ys : List (Cell MemoryRegion))
      → i.cells ≡ xs ++ c ∷ ys
      → Around g lo hi v xs c ys
  around g lo hi v i xs c ys e =
      let s =
        chain-Split g 0 lo xs (c ∷ ys) i.last hi 0
          (subst (λ cs. Chain g 0 lo cs i.last hi 0) e i.chain) in
      record {
        last = s.last;
        border = s.border;
        final = i.last;
        holding = subst (Holding laws v) e i.holding;
        first = i.first ∙ ap (λ cs. first_of cs 0) e ∙ first_of-append xs (c ∷ ys) 0;
        front = s.front;
        here = s.back.0;
        back = s.back.1;
      }

  -- The same around two regions, one behind the other.
  pub record Beside (g : AddressMap) (lo hi : ℕ) (v : Vas S) (xs : List (Cell MemoryRegion))
      (p c : Cell MemoryRegion) (ys : List (Cell MemoryRegion)) : Type 0 where
    pub last : ℕ
    pub border : ℕ
    pub final : ℕ
    pub holding : Holding laws v (xs ++ p ∷ c ∷ ys)
    pub first : v.first ≡ first_of xs p.address
    pub front : Chain g 0 lo xs last border p.address
    pub before : Linked g last border c.address p.payload
    pub here : Linked g p.address p.payload.range.end (first_of ys 0) c.payload
    pub back : Chain g c.address c.payload.range.end ys final hi 0

  pub beside :
      (g : AddressMap) (lo hi : ℕ) (v : Vas S) (xs : List (Cell MemoryRegion))
      (p c : Cell MemoryRegion) (ys : List (Cell MemoryRegion))
      → Around g lo hi v (xs ++ p ∷ []) c ys
      → Beside g lo hi v xs p c ys
  beside g lo hi v xs p c ys w =
      let s = chain-Split g 0 lo xs (p ∷ []) w.last w.border c.address w.front in
      record {
        last = s.last;
        border = s.border;
        final = w.final;
        holding = subst (Holding laws v) (append_assoc xs (p ∷ []) (c ∷ ys)) w.holding;
        first = w.first ∙ first_of-append xs (p ∷ []) c.address;
        front = s.front;
        before = s.back.0;
        here = rw (s.back.1.0, s.back.1.1) w.here;
        back = w.back;
      }

  pub assemble :
      (g : AddressMap) (lo hi : ℕ) (v : Vas S) (xs ys : List (Cell MemoryRegion)) (m mid q : ℕ)
      → Holding laws v (xs ++ ys)
      → v.first ≡ first_of xs (first_of ys 0)
      → Chain g 0 lo xs m mid (first_of ys 0)
      → Chain g m mid ys q hi 0
      → Implements g lo hi v
  assemble g lo hi v xs ys m mid q h f a b = record {
    cells = xs ++ ys;
    last = q;
    holding = h;
    first = f ∙ sym (first_of-append xs ys 0);
    chain = chain_join g 0 lo xs ys m mid q hi 0 a b;
  }

  pub around-Implements :
      (g : AddressMap) (lo hi : ℕ) (v : Vas S) (xs : List (Cell MemoryRegion))
      (c : Cell MemoryRegion) (ys : List (Cell MemoryRegion))
      → Around g lo hi v xs c ys
      → Implements g lo hi v
  around-Implements g lo hi v xs c ys w =
      assemble g lo hi v xs (c ∷ ys) w.last w.border w.final w.holding w.first w.front
        (w.here, w.back)

  pub Implements-agree :
      {g : AddressMap} (g' : AddressMap) (lo hi : ℕ) (v : Vas S)
      → ((a : ℕ) → g a ≡ g' a)
      → Implements g lo hi v
      → Implements g' lo hi v
  Implements-agree {g} g' lo hi v e i = record {
    cells = i.cells;
    last = i.last;
    holding = i.holding;
    first = i.first;
    chain = chain_agree g g' 0 lo i.cells i.last hi 0 i.chain (λ a _ _. e a);
  }

  pub same_update :
      (g : AddressMap) {s s' e e' : ℕ} {u u' : Use} (lo hi : ℕ) (v : Vas S)
      → s ≡ s'
      → e ≡ e'
      → u ≡ u'
      → Implements (updated g s e u) lo hi v
      → Implements (updated g s' e' u') lo hi v
  same_update g {s'} {e} {e'} {u} lo hi v p q r i =
      subst (λ w. Implements (updated g s' e' w) lo hi v) r
        (subst (λ x. Implements (updated g s' x u) lo hi v) q
          (subst (λ x. Implements (updated g x e u) lo hi v) p i))
