-- ===== src/Memory/Vas/Holding.antt =====
-- What the tree of a `Vas` of beelzebub/src/memory/vas.cpp holds before and after each write, insertion and
-- removal of `Execute`.
use beelzebub.Common.{
  ℕ, ◌≡◌, sym, subst, ◌≢◌, List, [], ◌∷◌, ◌++◌, append_assoc, Bool, true, false, some, Ordering,
  All, All-mono, All-away, IsDistinct, IsAbsent, arith,
}
use beelzebub.Handles.{is_okay}
use beelzebub.Avl.Node.{Cell}
use beelzebub.Avl.Edit.{Allocator}
use beelzebub.Avl.Edit
use beelzebub.Avl.Heights.{IsBalanced}
use beelzebub.Avl.Heights.Edits.{descend-Grown, remove-Shrunk}
use beelzebub.Avl.Sequence.{IsLess, IsGreater}
use beelzebub.Avl.Contents.{by_payload}
use beelzebub.Avl.Tree.{AvlTree}
use beelzebub.Avl.Tree
use beelzebub.Avl.Invariant.{contents}
use beelzebub.Avl.Removing.{give_back-root}
use beelzebub.Avl.Between.{insert_between, remove_between, added}
use beelzebub.Memory.Regions.{MemoryRegion, compare_regions, compare_address}
use beelzebub.Memory.Pointers.{load, modify, map_nodes-IsBalanced, at}
use beelzebub.Memory.Places.{
  addresses, put, addresses-put, insert-All, remove-All, member-All, insert-IsDistinct,
  remove-IsDistinct, remove-IsAbsent, load_place, modify_place,
}
use beelzebub.Memory.Vas.{Vas}
use beelzebub.Memory.Vas.Execute.{remove_at, insert_region}
use beelzebub.Memory.Vas.Writes.{on_tree}

-- What `AllocateNode` and `RemoveNode` promise, with the object allocator behind them: an address is
-- allocated only where it is not null and not in use, and one in use can be released.
pub record Laws {κ} {S : Type κ} (alloc : Allocator S) : Type κ where
  pub live : S → ℕ → Bool
  pub fresh :
      (s : S)
      → is_okay (alloc.allocate s).result ≡ true
      → ((alloc.allocate s).address ≢ 0) × (live s (alloc.allocate s).address ≡ false)
  pub kept :
      (s : S)
      → is_okay (alloc.allocate s).result ≡ true
      → (live (alloc.allocate s).state (alloc.allocate s).address ≡ true)
        × ((a : ℕ) → live s a ≡ true → live (alloc.allocate s).state a ≡ true)
  pub released :
      (s : S) (a : ℕ)
      → live s a ≡ true
      → (is_okay (alloc.release a s).0 ≡ true)
        × ((b : ℕ) → b ≢ a → live s b ≡ true → live (alloc.release a s).1 b ≡ true)

module _ {κ} {S : Type κ} {alloc : Allocator S} (laws : Laws alloc) where
  abbrev pub IsLive : S → ℕ → Type 0
  IsLive s a = (a ≢ 0) × (laws.live s a ≡ true)

  -- The regions of a space, in a balanced tree of nodes that its allocator has given out.
  pub record Holding (v : Vas S) (cs : List (Cell MemoryRegion)) : Type 0 where
    pub held : contents v.tree ≡ cs
    pub distinct : IsDistinct (addresses cs)
    pub alive : All (IsLive v.tree.cookie) (addresses cs)
    pub balanced : IsBalanced v.tree.root

  module _ (v : Vas S) (xs : List (Cell MemoryRegion)) (c : Cell MemoryRegion)
      (ys : List (Cell MemoryRegion)) where
    pub load_held : Holding v (xs ++ c ∷ ys) → load c.address v.tree ≡ some c.payload
    load_held h = load_place v.tree xs c ys h.held h.distinct

    pub write_held :
        (f : MemoryRegion → MemoryRegion)
        → Holding v (xs ++ c ∷ ys)
        → Holding (on_tree (modify c.address f) v) (xs ++ put f c ∷ ys)
    unfolding modify
    write_held f h = record {
      held = modify_place v.tree xs c ys h.held h.distinct f;
      distinct = subst IsDistinct (sym (addresses-put f xs c ys)) h.distinct;
      alive = subst (All (IsLive v.tree.cookie)) (sym (addresses-put f xs c ys)) h.alive;
      balanced = map_nodes-IsBalanced (at c.address f) v.tree.root h.balanced;
    }

  -- The same for a region behind one more.
  module _ (v : Vas S) (xs : List (Cell MemoryRegion)) (b c : Cell MemoryRegion)
      (ys : List (Cell MemoryRegion)) where
    abbrev grouped : (d : Cell MemoryRegion) → (xs ++ b ∷ []) ++ d ∷ ys ≡ xs ++ b ∷ d ∷ ys
    grouped d = append_assoc xs (b ∷ []) (d ∷ ys)

    pub load_second : Holding v (xs ++ b ∷ c ∷ ys) → load c.address v.tree ≡ some c.payload
    load_second h = load_held v (xs ++ b ∷ []) c ys (subst (Holding v) (sym (grouped c)) h)

    pub write_second :
        (f : MemoryRegion → MemoryRegion)
        → Holding v (xs ++ b ∷ c ∷ ys)
        → Holding (on_tree (modify c.address f) v) (xs ++ b ∷ put f c ∷ ys)
    write_second f h =
        subst (Holding _) (grouped (put f c))
          (write_held v (xs ++ b ∷ []) c ys f (subst (Holding v) (sym (grouped c)) h))

  dead-IsAbsent :
      (s : S) (a : ℕ) (used : List ℕ)
      → laws.live s a ≡ false
      → All (IsLive s) used
      → IsAbsent a used
  dead-IsAbsent s a [] n h = tt
  dead-IsAbsent s a (b ∷ bs) n h = (
    (λ e. let l : laws.live s a ≡ true = rw (sym e) h.0.1 in ground arith),
    dead-IsAbsent s a bs n h.1,
  )

  -- With memory, a region that lies between the others is inserted.
  module _ (v : Vas S) (reg : MemoryRegion) (xs ys : List (Cell MemoryRegion))
      (h : Holding v (xs ++ ys)) (below : All (IsLess (by_payload (λ r. compare_regions r reg))) xs)
      (above : All (IsGreater (by_payload (λ r. compare_regions r reg))) ys)
      (e : is_okay (insert_region alloc reg v).result ≡ true) where
    abbrev pub new : Cell MemoryRegion
    new = added alloc compare_regions reg v.tree xs ys h.held below above

    pub insert-payload : (insert_region alloc reg v).payload ≡ some new
    insert-payload = (insert_between alloc compare_regions reg v.tree xs ys h.held below above e).1

    pub insert_held :
        Holding (record v { tree = (insert_region alloc reg v).tree }) (xs ++ new ∷ ys)
    insert_held =
        let inserted = insert_between alloc compare_regions reg v.tree xs ys h.held below above e in
        record {
          held = inserted.3;
          distinct =
              insert-IsDistinct xs new ys h.distinct
                (dead-IsAbsent _ _ _ (laws.fresh _ inserted.0).1 h.alive);
          alive = rw inserted.2 (
              insert-All _ xs new ys ((laws.fresh _ inserted.0).0, (laws.kept _ inserted.0).0)
                (All-mono (addresses (xs ++ ys)) (λ a l. (l.0, (laws.kept _ inserted.0).1 a l.1))
                  h.alive));
          balanced = insert-IsBalanced;
        }
      where
        insert-IsBalanced : IsBalanced (insert_region alloc reg v).tree.root
        insert-IsBalanced =
            unfold Tree.insert Edit.insert in
            (descend-Grown alloc _ reg v.tree.root v.tree.cookie h.balanced).balanced

  -- The region at an address goes, and is released.
  module _ (v : Vas S) (vaddr : ℕ) (xs : List (Cell MemoryRegion)) (c : Cell MemoryRegion)
      (ys : List (Cell MemoryRegion)) (h : Holding v (xs ++ c ∷ ys))
      (below : All (IsLess (by_payload (λ r. compare_address r.range vaddr))) xs)
      (here : compare_address c.payload.range vaddr ≡ Ordering.eq)
      (above : All (IsGreater (by_payload (λ r. compare_address r.range vaddr))) ys) where
    c-IsLive : IsLive v.tree.cookie c.address
    c-IsLive = member-All _ xs c ys h.alive

    pub remove-okay : is_okay (remove_at alloc vaddr v).0 ≡ true
    remove-okay =
        rw (remove_between alloc _ v.tree xs c ys h.held below here above).0
          (laws.released _ _ c-IsLive.1).0

    pub remove_held : Holding (remove_at alloc vaddr v).1 (xs ++ ys)
    remove_held =
        let removed = remove_between alloc _ v.tree xs c ys h.held below here above in
        record {
          held = removed.2;
          distinct = remove-IsDistinct xs c ys h.distinct;
          alive = rw removed.1 (
              All-away c.address (addresses (xs ++ ys)) (remove-IsAbsent xs c ys h.distinct)
                (λ a n l. (l.0, (laws.released _ _ c-IsLive.1).1 a n l.1))
                (remove-All _ xs c ys h.alive));
          balanced = remove-IsBalanced;
        }
      where
        remove-IsBalanced : IsBalanced (remove_at alloc vaddr v).1.tree.root
        remove-IsBalanced =
            unfold Tree.remove in
            rw
              (give_back-root alloc v.tree
                (Edit.remove (λ reg. compare_address reg.range vaddr) v.tree.root))
              (remove-Shrunk _ v.tree.root h.balanced).balanced
