-- ===== src/Avl/Invariant.antt =====
-- When an `AvlTree` of avl.tree.hpp is well formed, and what a search of such a tree finds.
use beelzebub.Common.{◌≡◌, List, Ordering, length}
use beelzebub.Avl.Node.{Cell, to_list}
use beelzebub.Avl.Edit.{Allocator, Comparison}
use beelzebub.Avl.Heights.{IsBalanced}
use beelzebub.Avl.Sequence.{IsCut, find_first}
use beelzebub.Avl.Contents.{by_payload, find-find_first}
use beelzebub.Avl.Order.{IsKey, IsSorted, IsSorted-IsCut}
use beelzebub.Avl.Tree.{AvlTree, find}

-- The order of nodes by what they hold.
abbrev pub by_payloads {ℓ} : {P : Type ℓ} → Comparison P P → Cell P → Cell P → Ordering
by_payloads compare c d = compare c.payload d.payload

module _ {ℓ κ} {P : Type ℓ} {S : Type κ} where
  abbrev pub contents : AvlTree P S → List (Cell P)
  contents tree = to_list tree.root

  pub record IsWellFormed (compare : Comparison P P) (tree : AvlTree P S) : Type 0 where
    pub balanced : IsBalanced tree.root
    pub sorted : IsSorted (by_payloads compare) (contents tree)
    pub counted : tree.node_count ≡ length (contents tree)

pub cell-IsKey {ℓ} :
    {P : Type ℓ} {compare : Comparison P P} {test : P → Ordering}
    → IsKey compare test
    → IsKey (by_payloads compare) (by_payload test)
cell-IsKey k = record {
  below = λ c d. k.below c.payload d.payload;
  above = λ c d. k.above c.payload d.payload;
}

module _ {ℓ κ} {P : Type ℓ} {S : Type κ} {compare : Comparison P P} where
  pub wf-IsCut :
      {tree : AvlTree P S} {test : P → Ordering}
      → IsWellFormed compare tree
      → IsKey compare test
      → IsCut (by_payload test) (contents tree)
  wf-IsCut {tree} wf key =
      IsSorted-IsCut (by_payloads compare) (cell-IsKey key) (contents tree) wf.sorted

  pub find-contents :
      (alloc : Allocator S) (tree : AvlTree P S) (test : P → Ordering)
      → IsKey compare test
      → IsSorted (by_payloads compare) (contents tree)
      → find alloc test tree ≡ find_first (by_payload test) (contents tree)
  unfolding find
  find-contents alloc tree test key s =
      find-find_first test tree.root
        (IsSorted-IsCut (by_payloads compare) (cell-IsKey key) (contents tree) s)

  pub same-IsWellFormed :
      {tree t : AvlTree P S}
      → IsWellFormed compare tree
      → t.root ≡ tree.root
      → t.node_count ≡ tree.node_count
      → IsWellFormed compare t
  same-IsWellFormed wf r n = record {
    balanced = rw r wf.balanced;
    sorted = rw r wf.sorted;
    counted = rw (r, n) wf.counted;
  }
