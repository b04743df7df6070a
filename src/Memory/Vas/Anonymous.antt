-- ===== src/Memory/Vas/Anonymous.antt =====
-- The search of `Execute` in beelzebub/src/memory/vas.cpp for a region to allocate in, where any address will do.
use beelzebub.Common.{
  ℕ, zero, suc, ◌+◌, ◌-◌, ◌^◌, ◌≤◌, ◌<◌, ◌≡◌, refl, sym, subst, ◌∙◌, ◌⊎◌, inl, inr, List, [], ◌∷◌,
  ◌++◌, append_assoc, true, false, leb, leb→le, ◌==◌, Bool-cases, none, some, Option-cases, length,
  All, ◌≢◌, u64, arith,
}
use beelzebub.Avl.Node.{Cell}
use beelzebub.Avl.Edit.{Allocator}
use beelzebub.Memory.Regions.{MemoryRegion, get_size}
use beelzebub.Memory.Pointers.{load}
use beelzebub.Memory.Vas.{Vas, OperationParameters, can_allocate_anonymously, free_content}
use beelzebub.Memory.Vas.Execute.{find_anonymous}
use beelzebub.Memory.Vas.Chain.{AddressMap, Chain, first_of, chain_le}
use beelzebub.Memory.Vas.Holding.{Laws, Holding, load_held}
use beelzebub.Memory.Vas.Space.{Implements}
use beelzebub.Memory.Vas.Neighbours.{load_null}

-- The end of the region, where it fits.
can_allocate_anonymously-bounds :
    (op : OperationParameters) (r : MemoryRegion) (a : ℕ)
    → r.range.start < r.range.end
    → r.range.end < 2 ^ 64
    → can_allocate_anonymously op r ≡ some a
    → (r.range.start ≤ a) × (a + op.start_size ≡ r.range.end)
unfolding can_allocate_anonymously get_size
can_allocate_anonymously-bounds op r a p s e =
    let size : u64 (r.range.end + 2 ^ 64 - r.range.start) ≡ r.range.end - r.range.start =
      omega arith in
    elim (Bool-cases (leb op.start_size (u64 (r.range.end + 2 ^ 64 - r.range.start)))) [
      | inl t ↦
          let fits = leb→le _ _ t in
          let at_end : u64 (r.range.end + 2 ^ 64 - op.start_size) ≡ a = some-eq (rw t at e) in
          let whole : u64 (r.range.end + 2 ^ 64 - op.start_size) ≡ r.range.end - op.start_size =
            omega arith in
          (omega arith, omega arith)
      | inr f ↦ absurd (nothing (rw f at e))
    ]
  where
    some-eq : {x y : ℕ} → some x ≡ some y → x ≡ y
    some-eq q = cc

    nothing : {x : ℕ} → none ≡ some x → ⊥
    nothing q = cc

can_allocate_anonymously-small :
    (op : OperationParameters) (r : MemoryRegion)
    → can_allocate_anonymously op r ≡ none
    → get_size r.range < op.start_size
unfolding can_allocate_anonymously get_size
can_allocate_anonymously-small op r e =
    elim (Bool-cases (leb op.start_size (u64 (r.range.end + 2 ^ 64 - r.range.start)))) [
      | inl t ↦ absurd (nothing (rw t at e))
      | inr f ↦ ground arith
    ]
  where
    nothing : {x : ℕ} → some x ≡ none → ⊥
    nothing q = cc

-- A region that the operation cannot be in.
abbrev pub IsUnfit : OperationParameters → Cell MemoryRegion → Type 0
IsUnfit op c = (c.payload.content ≢ free_content) ⊎ (get_size c.payload.range < op.start_size)

module _ {κ} {S : Type κ} {alloc : Allocator S} (laws : Laws alloc) (g : AddressMap) (lo hi : ℕ)
    (v : Vas S) (op : OperationParameters) (small : hi < 2 ^ 64) where
  pub find_anonymous_end :
      (fuel reg : ℕ) → load reg v.tree ≡ none → find_anonymous alloc (suc fuel) op reg v ≡ none
  unfolding find_anonymous
  find_anonymous_end fuel reg e = rw (e, find_anonymous) refl

  pub find_anonymous_here :
      (fuel reg : ℕ) (r : MemoryRegion) (a : ℕ)
      → load reg v.tree ≡ some r
      → (r.content == free_content) ≡ true
      → can_allocate_anonymously op r ≡ some a
      → find_anonymous alloc (suc fuel) op reg v ≡ some a
  unfolding find_anonymous
  find_anonymous_here fuel reg r a e f g = rw (e, f, g, find_anonymous) refl

  pub find_anonymous_used :
      (fuel reg : ℕ) (r : MemoryRegion)
      → load reg v.tree ≡ some r
      → (r.content == free_content) ≡ false
      → find_anonymous alloc (suc fuel) op reg v ≡ find_anonymous alloc fuel op r.next v
  unfolding find_anonymous
  find_anonymous_used fuel reg r e f = rw (e, f, find_anonymous) refl

  pub find_anonymous_small :
      (fuel reg : ℕ) (r : MemoryRegion)
      → load reg v.tree ≡ some r
      → can_allocate_anonymously op r ≡ none
      → find_anonymous alloc (suc fuel) op reg v ≡ find_anonymous alloc fuel op r.next v
  unfolding find_anonymous
  find_anonymous_small fuel reg r e g = elim (Bool-cases (r.content == free_content)) [
    | inl f ↦ rw (e, f, g, find_anonymous) refl
    | inr f ↦ rw (e, f, find_anonymous) refl
  ]

  pub find_anonymous-bounds :
      (fuel : ℕ) (xs cs : List (Cell MemoryRegion)) (p b q a : ℕ)
      → Holding laws v (xs ++ cs)
      → Chain g p b cs q hi 0
      → find_anonymous alloc fuel op (first_of cs 0) v ≡ some a
      → (b ≤ a) × (a + op.start_size ≤ hi)
  find_anonymous-bounds zero xs cs p b q a h k e = unfold find_anonymous in cc
  find_anonymous-bounds (suc fuel) xs [] p b q a h k e =
      let n = find_anonymous_end fuel 0 (load_null laws v (xs ++ []) h) in absurd (ground arith)
  find_anonymous-bounds (suc fuel) xs (c ∷ cs) p b q a h k e =
      let l = load_held laws v xs c cs h in
      let start = k.0.start in
      let proper = k.0.proper in
      let rest = chain_le _ _ _ cs _ _ _ k.1 in
      let further : find_anonymous alloc (suc fuel) op c.address v
            ≡ find_anonymous alloc fuel op c.payload.next v
          → (b ≤ a) × (a + op.start_size ≤ hi) =
        λ s.
          let r =
            find_anonymous-bounds fuel (xs ++ c ∷ []) cs c.address c.payload.range.end q a
              (subst (Holding laws v) (sym (append_assoc xs (c ∷ []) cs)) h) k.1
              (subst (λ n. find_anonymous alloc fuel op n v ≡ some a) k.0.next (sym s ∙ e)) in
          (omega arith, r.1) in
      elim (Bool-cases (c.payload.content == free_content)) [
        | inl f ↦ elim (Option-cases (can_allocate_anonymously op c.payload)) [
          | inl n ↦ further (find_anonymous_small fuel c.address c.payload l n)
          | inr (x, m) ↦
              let same : x ≡ a =
                let s = find_anonymous_here fuel c.address c.payload x l f m in ground arith in
              let r =
                can_allocate_anonymously-bounds op c.payload x (omega arith) (omega arith) m in
              (omega arith, omega arith)
        ]
        | inr f ↦ further (find_anonymous_used fuel c.address c.payload l f)
      ]

  find_anonymous-All :
      (fuel : ℕ) (xs cs : List (Cell MemoryRegion)) (p b q : ℕ)
      → length cs ≤ fuel
      → Holding laws v (xs ++ cs)
      → Chain g p b cs q hi 0
      → find_anonymous alloc fuel op (first_of cs 0) v ≡ none
      → All (IsUnfit op) cs
  find_anonymous-All fuel xs [] p b q enough h k n = tt
  find_anonymous-All zero xs (c ∷ cs) p b q enough h k n = absurd (omega arith)
  find_anonymous-All (suc fuel) xs (c ∷ cs) p b q enough h k n =
      let l = load_held laws v xs c cs h in
      let further : find_anonymous alloc (suc fuel) op c.address v
            ≡ find_anonymous alloc fuel op c.payload.next v
          → All (IsUnfit op) cs =
        λ s.
          find_anonymous-All fuel (xs ++ c ∷ []) cs c.address c.payload.range.end q (omega arith)
            (subst (Holding laws v) (sym (append_assoc xs (c ∷ []) cs)) h) k.1
            (subst (λ m. find_anonymous alloc fuel op m v ≡ none) k.0.next (sym s ∙ n)) in
      elim (Bool-cases (c.payload.content == free_content)) [
        | inl f ↦ elim (Option-cases (can_allocate_anonymously op c.payload)) [
          | inl m ↦ (
            inr (can_allocate_anonymously-small op c.payload m),
            further (find_anonymous_small fuel c.address c.payload l m),
          )
          | inr (x, m) ↦ absurd (let s = find_anonymous_here fuel c.address c.payload x l f m in cc)
        ]
        | inr f ↦
            (inl (λ e. ground arith), further (find_anonymous_used fuel c.address c.payload l f))
      ]

  -- In a well-formed space of addresses below 2^64 the search of an anonymous allocation, with fuel for
  -- as many steps as there are regions, ends without an address only where every region is in use or
  -- smaller than the size asked for. The allocator of nodes keeps its laws.
  pub find_anonymous_complete :
      (i : Implements laws g lo hi v) (fuel : ℕ)
      → length i.cells ≤ fuel
      → find_anonymous alloc fuel op v.first v ≡ none
      → All (IsUnfit op) i.cells
  find_anonymous_complete i fuel enough n =
      find_anonymous-All fuel [] i.cells 0 lo i.last enough i.holding i.chain
        (subst (λ m. find_anonymous alloc fuel op m v ≡ none) i.first n)
