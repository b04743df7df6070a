-- ===== src/Memory/Vas/Manipulating.antt =====
-- The nine cases of `Execute` in beelzebub/src/memory/vas.cpp together: what they do to a well-formed space.
use beelzebub.Common.{
  ℕ, ◌+◌, ◌^◌, ◌≤◌, ◌<◌, ◌≡◌, refl, subst, inl, inr, List, ◌∷◌, true, false, Bool-cases,
  if◌then◌else◌, u64, arith,
}
use beelzebub.Avl.Node.{Cell}
use beelzebub.Avl.Edit.{Allocator}
use beelzebub.Memory.Regions.{MemoryRegion}
use beelzebub.Memory.Pointers.{load}
use beelzebub.Memory.Vas.{
  Vas, Manipulation, OperationParameters, DescriptorCheckResults, check, is_allocation,
}
use beelzebub.Memory.Vas.Execute.{manipulate}
use beelzebub.Memory.Vas.Writes.{Result}
use beelzebub.Memory.Vas.Chain.{use_of, AddressMap}
use beelzebub.Memory.Vas.Holding.{Laws}
use beelzebub.Memory.Vas.Space.{Around, Beside, beside}
use beelzebub.Memory.Vas.Updates.{purpose, updated}
use beelzebub.Memory.Vas.Around.{IsAble, Leaves}
use beelzebub.Memory.Vas.Neighbours.{previous, following}
use beelzebub.Memory.Vas.Checks.{IsAlike, check-left, check-right, Bounds, check-Bounds}
use beelzebub.Memory.Vas.Growth.{
  repurpose_whole-Implements, grow_left-Implements, grow_right-Implements,
}
use beelzebub.Memory.Vas.Splits.{split_low-Leaves, split_high-Leaves}
use beelzebub.Memory.Vas.Middle.{split_middle-Leaves}
use beelzebub.Memory.Vas.Merges.{merge_left-Leaves, merge_right-Leaves, merge_both-Leaves}

-- The addresses that an operation takes of a region.
abbrev pub low_of : OperationParameters → MemoryRegion → DescriptorCheckResults → ℕ
low_of op reg d = if d.meets_left then reg.range.start else op.address

abbrev pub high_of : OperationParameters → MemoryRegion → DescriptorCheckResults → ℕ
high_of op reg d = if d.meets_right then reg.range.end else u64 (op.address + op.size)

module _ {κ} {S : Type κ} {alloc : Allocator S} (laws : Laws alloc) (m : Manipulation)
    (g : AddressMap) (lo hi : ℕ) (v : Vas S) (c : Cell MemoryRegion) where
  -- Two regions of which the first is used as the operation uses its addresses.
  pub record Left (xs ys : List (Cell MemoryRegion)) : Type 0 where
    pub front : List (Cell MemoryRegion)
    pub cell : Cell MemoryRegion
    pub same : use_of cell.payload ≡ purpose m
    pub pair : Beside laws g lo hi v front cell c ys

  Left-alike :
      (xs ys : List (Cell MemoryRegion))
      → Around laws g lo hi v xs c ys
      → IsAlike m (load c.payload.prev v.tree)
      → Left xs ys
  Left-alike xs ys w (r, e, same) = elim (previous laws g lo hi v c xs ys w) [
    | inl n ↦ cc
    | inr p ↦ record {
      front = p.front;
      cell = p.cell;
      same =
          let found : r ≡ p.cell.payload = let l = p.loaded in ground arith in
          subst (λ x. use_of x ≡ purpose m) found same;
      pair =
          beside laws g lo hi v p.front p.cell c ys
            (subst (λ cs. Around laws g lo hi v cs c ys) p.whole w);
    }
  ]

  pub record Right (xs ys : List (Cell MemoryRegion)) : Type 0 where
    pub cell : Cell MemoryRegion
    pub rest : List (Cell MemoryRegion)
    pub same : use_of cell.payload ≡ purpose m
    pub whole : ys ≡ cell ∷ rest

  Right-alike :
      (xs ys : List (Cell MemoryRegion))
      → Around laws g lo hi v xs c ys
      → IsAlike m (load c.payload.next v.tree)
      → Right xs ys
  Right-alike xs ys w (r, e, same) = elim (following laws g lo hi v c xs ys w) [
    | inl n ↦ cc
    | inr p ↦ record {
      cell = p.cell;
      rest = p.rest;
      same =
          let found : r ≡ p.cell.payload = let l = p.loaded in ground arith in
          subst (λ x. use_of x ≡ purpose m) found same;
      whole = p.whole;
    }
  ]

module _ {κ} {S : Type κ} {alloc : Allocator S} (laws : Laws alloc) (op : OperationParameters)
    (g : AddressMap) (lo hi : ℕ) (v : Vas S) (xs : List (Cell MemoryRegion)) (c : Cell MemoryRegion)
    (ys : List (Cell MemoryRegion)) (w : Around laws g lo hi v xs c ys)
    (low : c.payload.range.start ≤ op.address) (inside : op.address < c.payload.range.end)
    (proper : op.address < u64 (op.address + op.size)) (small : hi < 2 ^ 64) where
  abbrev end_addr : ℕ
  end_addr = u64 (op.address + op.size)

  abbrev perform : DescriptorCheckResults → Result S
  perform d = manipulate alloc op.manipulation op.address end_addr c.address c.payload d v

  abbrev Done : DescriptorCheckResults → Type κ
  Done d =
      IsAble alloc (perform d)
      → Leaves laws
          (updated g (low_of op c.payload d) (high_of op c.payload d) (purpose op.manipulation)) lo
          hi (perform d)

  module _ (d : DescriptorCheckResults) (b : Bounds op c.payload d)
      (l : d.left_mergeable ≡ true → Left laws op.manipulation g lo hi v c xs ys)
      (r : d.right_mergeable ≡ true → Right laws op.manipulation g lo hi v c xs ys) where
    whole_Done : d.meets_left ≡ true → d.meets_right ≡ true → Done d
    unfolding manipulate
    whole_Done e f = elim (Bool-cases d.left_mergeable) [
      | inl i ↦
          let p = l i in
          elim (Bool-cases d.right_mergeable) [
            | inl j ↦
                let n = r j in
                rw (e, f, i, j, manipulate)
                  (λ _.
                    (merge_both-Leaves laws op.manipulation op.address end_addr g lo hi v p.front
                      p.cell c n.cell n.rest
                      (subst (Beside laws g lo hi v p.front p.cell c) n.whole p.pair) p.same n.same
                      low inside small))
            | inr j ↦
                rw (e, f, i, j, manipulate)
                  (λ _.
                    (merge_left-Leaves laws op.manipulation op.address end_addr g lo hi v p.front
                      p.cell c ys p.pair p.same low inside))
          ]
      | inr i ↦ elim (Bool-cases d.right_mergeable) [
        | inl j ↦
            let n = r j in
            rw (e, f, i, j, manipulate)
              (λ _.
                (merge_right-Leaves laws op.manipulation op.address end_addr g lo hi v xs c n.cell
                  n.rest (subst (Around laws g lo hi v xs c) n.whole w) n.same low inside))
        | inr j ↦
            rw (e, f, i, j, manipulate)
              (λ _. (
                refl,
                repurpose_whole-Implements laws op.manipulation op.address end_addr g lo hi v xs c
                    ys w,
              ))
      ]
    ]

    low_Done : d.meets_left ≡ true → d.meets_right ≡ false → Done d
    unfolding manipulate
    low_Done e f =
        let high = b.inside_right f in
        elim (Bool-cases d.left_mergeable) [
          | inl i ↦
              let p = l i in
              rw (e, f, i, manipulate)
                (λ _. (
                  refl,
                  grow_left-Implements laws op.manipulation op.address end_addr g lo hi v p.front
                      p.cell c ys p.pair p.same (omega arith) high,
                ))
          | inr i ↦
              rw (e, f, i, manipulate)
                (split_low-Leaves laws op.manipulation op.address end_addr g lo hi v xs c ys w
                  (omega arith) high)
        ]

    high_Done : d.meets_left ≡ false → d.meets_right ≡ true → Done d
    unfolding manipulate
    high_Done e f =
        let left = b.inside_left e in
        elim (Bool-cases d.right_mergeable) [
          | inl j ↦
              let n = r j in
              rw (e, f, j, manipulate)
                (λ _. (
                  refl,
                  grow_right-Implements laws op.manipulation op.address end_addr g lo hi v xs c
                      n.cell n.rest (subst (Around laws g lo hi v xs c) n.whole w) n.same left
                      inside,
                ))
          | inr j ↦
              rw (e, f, j, manipulate)
                (split_high-Leaves laws op.manipulation op.address end_addr g lo hi v xs c ys w left
                  inside)
        ]

    middle_Done : d.meets_left ≡ false → d.meets_right ≡ false → Done d
    unfolding manipulate
    middle_Done e f =
        rw (e, f, manipulate)
          (split_middle-Leaves laws op.manipulation op.address end_addr g lo hi v xs c ys w
            (b.inside_left e) proper (b.inside_right f))

    all_Done : Done d
    all_Done = elim (Bool-cases d.meets_left) [
      | inl e ↦ elim (Bool-cases d.meets_right) [ inl f ↦ whole_Done e f | inr f ↦ low_Done e f ]
      | inr e ↦ elim (Bool-cases d.meets_right) [ inl f ↦ high_Done e f | inr f ↦ middle_Done e f ]
    ]

  -- The manipulation that `Execute` chooses of its nine cases by the results of `Check`, for a region
  -- of a well-formed space below 2^64 that contains the operation's address, leaves a well-formed space
  -- where it returns `Okay`, and it does so where memory for nodes does not run out: from the
  -- operation's address or the start of the region that it meets, up to its end or the end of the
  -- region that it meets, there is what the operation puts there, and the rest is as it was. The
  -- operation's range is not empty and does not wrap, an allocation ends inside the region, and the
  -- allocator of nodes keeps its laws.
  pub manipulate-Leaves :
      (is_allocation op.manipulation ≡ true → end_addr ≤ c.payload.range.end)
      → let d = check op c.payload (load c.payload.prev v.tree) (load c.payload.next v.tree) in
        IsAble alloc (perform d)
        → Leaves laws
            (updated g (low_of op c.payload d) (high_of op c.payload d) (purpose op.manipulation))
            lo
            hi
            (perform d)
  manipulate-Leaves fits =
      let prev = load c.payload.prev v.tree in
      let next = load c.payload.next v.tree in
      all_Done (check op c.payload prev next) (check-Bounds op c.payload prev next low inside fits)
        (λ e.
          Left-alike laws op.manipulation g lo hi v c xs ys w (check-left op c.payload prev next e))
        (λ e.
          Right-alike laws op.manipulation g lo hi v c xs ys w
            (check-right op c.payload prev next e))
