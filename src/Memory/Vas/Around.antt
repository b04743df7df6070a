-- ===== src/Memory/Vas/Around.antt =====
-- The insertions and removals of `Execute` in beelzebub/src/memory/vas.cpp at their places in the chain.
use beelzebub.Common.{
  ℕ, ◌≤◌, ◌<◌, ◌≡◌, refl, sym, subst, List, [], ◌∷◌, ◌++◌, true, Bool-cases, inl, inr, ◌⊎◌, some,
  Ordering, All, arith,
}
use beelzebub.Handles.{is_okay}
use beelzebub.Avl.Node.{Cell}
use beelzebub.Avl.Edit.{Allocator}
use beelzebub.Avl.Sequence.{IsLess, IsGreater}
use beelzebub.Avl.Contents.{by_payload}
use beelzebub.Avl.Between.{gap-allocated}
use beelzebub.Avl.Tree.{Outcome}
use beelzebub.Memory.Regions.{MemoryRange, MemoryRegion, compare_regions, compare_address}
use beelzebub.Memory.Vas.{Vas, Manipulation, allocating, freeing, repurpose, spawned}
use beelzebub.Memory.Vas.Execute.{remove_at, insert_region}
use beelzebub.Memory.Vas.Writes.{Result, unless_failed, unless_lost, set_next, set_prev}
use beelzebub.Memory.Vas.Chain.{AddressMap, Linked, IsWithin}
use beelzebub.Memory.Vas.Holding.{
  remove-okay, remove_held, Laws, Holding, new, insert-payload, insert_held,
}
use beelzebub.Memory.Vas.Space.{Implements}
use beelzebub.Memory.Vas.Updates.{purpose}

pub below-IsLess :
    (reg : MemoryRegion) (lo hi : ℕ) (xs : List (Cell MemoryRegion))
    → hi ≤ reg.range.start
    → All (IsWithin lo hi) xs
    → All (IsLess (by_payload (λ r. compare_regions r reg))) xs
below-IsLess reg lo hi [] l h = tt
below-IsLess reg lo hi (x ∷ xs) l h = (step x.payload h.0, below-IsLess reg lo hi xs l h.1)
  where
    step :
        (r : MemoryRegion)
        → (lo ≤ r.range.start) × (r.range.start < r.range.end) × (r.range.end ≤ hi)
        → compare_regions r reg ≡ Ordering.lt
    step r h = ground arith

pub above-IsGreater :
    (reg : MemoryRegion) (lo hi : ℕ) (xs : List (Cell MemoryRegion))
    → reg.range.start ≤ reg.range.end
    → reg.range.end ≤ lo
    → All (IsWithin lo hi) xs
    → All (IsGreater (by_payload (λ r. compare_regions r reg))) xs
above-IsGreater reg lo hi [] p l h = tt
above-IsGreater reg lo hi (x ∷ xs) p l h =
    (step x.payload h.0, above-IsGreater reg lo hi xs p l h.1)
  where
    step :
        (r : MemoryRegion)
        → (lo ≤ r.range.start) × (r.range.start < r.range.end) × (r.range.end ≤ hi)
        → compare_regions r reg ≡ Ordering.gt
    step r h = ground arith

pub address-IsLess :
    (vaddr : ℕ) (lo hi : ℕ) (xs : List (Cell MemoryRegion))
    → hi ≤ vaddr
    → All (IsWithin lo hi) xs
    → All (IsLess (by_payload (λ r. compare_address r.range vaddr))) xs
address-IsLess vaddr lo hi [] l h = tt
address-IsLess vaddr lo hi (x ∷ xs) l h = (step x.payload h.0, address-IsLess vaddr lo hi xs l h.1)
  where
    step :
        (r : MemoryRegion)
        → (lo ≤ r.range.start) × (r.range.start < r.range.end) × (r.range.end ≤ hi)
        → compare_address r.range vaddr ≡ Ordering.lt
    step r h = ground arith

pub address-IsGreater :
    (vaddr : ℕ) (lo hi : ℕ) (xs : List (Cell MemoryRegion))
    → vaddr < lo
    → All (IsWithin lo hi) xs
    → All (IsGreater (by_payload (λ r. compare_address r.range vaddr))) xs
address-IsGreater vaddr lo hi [] l h = tt
address-IsGreater vaddr lo hi (x ∷ xs) l h =
    (step x.payload h.0, address-IsGreater vaddr lo hi xs l h.1)
  where
    step :
        (r : MemoryRegion)
        → (lo ≤ r.range.start) × (r.range.start < r.range.end) × (r.range.end ≤ hi)
        → compare_address r.range vaddr ≡ Ordering.gt
    step r h = ground arith

module _ {κ} {S : Type κ} (o : Outcome MemoryRegion S) (v : Vas S)
    (next : ℕ → Vas S → Result S) where
  unless_lost-okay : is_okay (unless_lost o v next).0 ≡ true → is_okay o.result ≡ true
  unless_lost-okay e = elim (Bool-cases (is_okay o.result)) [
    | inl t ↦ t
    | inr f ↦ absurd (let g : is_okay o.result ≡ true = rw f at e in ground arith)
  ]

  unless_lost_next :
      (c : Cell MemoryRegion)
      → is_okay o.result ≡ true
      → o.payload ≡ some c
      → unless_lost o v next ≡ next c.address (record v { tree = o.tree })
  unless_lost_next c e p = rw (e, p) refl

-- Memory for nodes that does not run out.
abbrev pub IsEndless {κ} : {S : Type κ} → Allocator S → Type κ
IsEndless {S} alloc = (s : S) → is_okay (alloc.allocate s).result ≡ true

-- A result that is known to be okay, or that no want of memory can spoil.
abbrev pub IsAble {κ} : {S : Type κ} → Allocator S → Result S → Type κ
IsAble alloc r = (is_okay r.0 ≡ true) ⊎ IsEndless alloc

-- What a successful operation leaves.
abbrev pub Leaves {κ} :
    {S : Type κ} {alloc : Allocator S} → Laws alloc → AddressMap → ℕ → ℕ → Result S → Type 0
Leaves laws g lo hi r = (is_okay r.0 ≡ true) × Implements laws g lo hi r.1

-- A node that has got the address `a`.
abbrev pub cell_at : ℕ → MemoryRegion → Cell MemoryRegion
cell_at a reg = record { address = a; payload = reg }

-- An operation that inserts a region and goes on has succeeded only with the region inserted.
pub insert_then {κ μ} :
    {S : Type κ} {alloc : Allocator S} (laws : Laws alloc) (reg : MemoryRegion) (v : Vas S)
    (xs ys : List (Cell MemoryRegion)) (next : ℕ → Vas S → Result S) (Q : Result S → Type μ)
    → Holding laws v (xs ++ ys)
    → All (IsLess (by_payload (λ r. compare_regions r reg))) xs
    → All (IsGreater (by_payload (λ r. compare_regions r reg))) ys
    → IsAble alloc (unless_lost (insert_region alloc reg v) v next)
    → ((a : ℕ) (w : Vas S)
        → w.first ≡ v.first
        → Holding laws w (xs ++ cell_at a reg ∷ ys)
        → IsAble alloc (next a w)
        → Q (next a w))
    → Q (unless_lost (insert_region alloc reg v) v next)
insert_then {alloc} laws reg v xs ys next Q held below above able proceed =
    let o = insert_region alloc reg v in
    let e : is_okay o.result ≡ true = elim able [
      | inl okay ↦ unless_lost-okay o v next okay
      | inr endless ↦
          rw (gap-allocated alloc compare_regions reg v.tree xs ys held.held below above)
            (endless v.tree.cookie)
    ] in
    let c = new laws v reg xs ys held below above e in
    let same = unless_lost_next o v next c e (insert-payload laws v reg xs ys held below above e) in
    subst Q (sym same) (
      proceed c.address (record v { tree = o.tree }) refl
        (insert_held laws v reg xs ys held below above e) (subst (IsAble alloc) same able))

pub unless_failed_next {κ} :
    {S : Type κ} (r : Result S) (next : Vas S → Result S)
    → is_okay r.0 ≡ true
    → unless_failed r next ≡ next r.1
unless_failed_next r next e = rw e refl

-- The region that `Spawn` makes, linked.
pub spawned-Linked :
    (m : Manipulation) (g : AddressMap) (p lo e n : ℕ)
    → lo < e
    → ((a : ℕ) → lo ≤ a → a < e → purpose m ≡ g a)
    → Linked g p lo n (set_next n (set_prev p (spawned m lo e)))
unfolding spawned repurpose
spawned-Linked (allocating flags content type) g p lo e n l f = record {
  prev = refl;
  start = refl;
  proper = l;
  next = refl;
  shows = f;
}
spawned-Linked freeing g p lo e n l f = record {
  prev = refl;
  start = refl;
  proper = l;
  next = refl;
  shows = f;
}

pub spawned-start : (m : Manipulation) (s e : ℕ) → (spawned m s e).range.start ≡ s
unfolding spawned repurpose
spawned-start (allocating flags content type) s e = refl
spawned-start freeing s e = refl

pub spawned-end : (m : Manipulation) (s e : ℕ) → (spawned m s e).range.end ≡ e
unfolding spawned repurpose
spawned-end (allocating flags content type) s e = refl
spawned-end freeing s e = refl

-- An operation that removes a region goes on without it.
pub remove_then {κ μ} :
    {S : Type κ} {alloc : Allocator S} (laws : Laws alloc) (vaddr : ℕ) (v : Vas S)
    (xs : List (Cell MemoryRegion)) (c : Cell MemoryRegion) (ys : List (Cell MemoryRegion))
    (next : Vas S → Result S) (Q : Result S → Type μ)
    → Holding laws v (xs ++ c ∷ ys)
    → All (IsLess (by_payload (λ r. compare_address r.range vaddr))) xs
    → compare_address c.payload.range vaddr ≡ Ordering.eq
    → All (IsGreater (by_payload (λ r. compare_address r.range vaddr))) ys
    → ((w : Vas S) → w.first ≡ v.first → Holding laws w (xs ++ ys) → Q (next w))
    → Q (unless_failed (remove_at alloc vaddr v) next)
remove_then {alloc} laws vaddr v xs c ys next Q h below here above proceed =
    subst Q
      (sym (
        unless_failed_next (remove_at alloc vaddr v) next
          (remove-okay laws v vaddr xs c ys h below here above)))
      (proceed (remove_at alloc vaddr v).1 refl
        (remove_held laws v vaddr xs c ys h below here above))

pub here-eq :
    (r : MemoryRange) (vaddr : ℕ)
    → r.start ≤ vaddr
    → vaddr < r.end
    → compare_address r vaddr ≡ Ordering.eq
here-eq r vaddr l h = ground arith
