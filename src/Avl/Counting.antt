-- ===== src/Avl/Counting.antt =====
-- How many nodes an AVL tree of a height has, and where `AvlTree` of avl.tree.hpp loses count.
use beelzebub.Common.{
  ℕ, zero, suc, ◌+◌, ◌*◌, ◌^◌, ◌≤◌, ◌<◌, max, ◌≡◌, sym, ap, ◌∙◌, ◌∷◌, none, true, Ordering, length,
  length-append, dec_lt, arith,
}
use native.Mathlib.Nat.{pow-suc}
use beelzebub.Handles.{is_okay}
use beelzebub.Avl.Node.{Node, null, node, to_list, get_height}
use beelzebub.Avl.Edit.{Allocator, Comparison}
use beelzebub.Avl.Edit
use beelzebub.Avl.Heights.{IsBalanced}
use beelzebub.Avl.Sequence.{IsCut}
use beelzebub.Avl.Contents.{by_payload, find-find_first}
use beelzebub.Avl.Insertion.{new_cell, descend-Attempted, descend-place}
use beelzebub.Avl.Order.{IsOrder, length-place}
use beelzebub.Avl.Tree.{AvlTree, find, insert, insert_or_find}
use beelzebub.Avl.Invariant.{contents, IsWellFormed}
use beelzebub.Avl.Inserting.{insert-IsWellFormed}

-- The fewest nodes of a balanced tree of height `h`.
pub fewest : ℕ → ℕ
fewest zero = 0
fewest (suc zero) = 1
fewest (suc (suc h)) = fewest (suc h) + fewest h + 1

fewest-suc : (h : ℕ) → fewest h ≤ fewest (suc h)
unfolding fewest
fewest-suc zero = omega arith
fewest-suc (suc h) = omega arith

fewest-le : (h k : ℕ) → h ≤ k → fewest h ≤ fewest k
fewest-le h zero p = let none_ : h ≡ 0 = omega arith in rw none_ (omega arith)
fewest-le h (suc k) p = elim (dec_lt k h) [
  | yes q ↦ let same : h ≡ suc k = omega arith in rw same (omega arith)
  | no q ↦ omega (arith, fewest-le h k (omega arith), fewest-suc k)
]

fewest_level : (h : ℕ) → fewest (suc h) ≤ fewest h + fewest h + 1
unfolding fewest
fewest_level zero = omega arith
fewest_level (suc h) = omega (arith, fewest-suc h)

fewest-node : (m n : ℕ) → m ≤ n + 1 → n ≤ m + 1 → fewest (suc (max m n)) ≤ fewest m + fewest n + 1
fewest-node m n p q = elim (dec_lt m n) [
  | yes less ↦
      let top : suc (max m n) ≡ suc (suc m) = omega arith in
      let right : n ≡ suc m = omega arith in rw (top, right) (unfold fewest in omega arith)
  | no more ↦ elim (dec_lt n m) [
    | yes less ↦
        let top : suc (max m n) ≡ suc (suc n) = omega arith in
        let left : m ≡ suc n = omega arith in rw (top, left) (unfold fewest in omega arith)
    | no level ↦
        let top : suc (max m n) ≡ suc n = omega arith in
        let left : m ≡ n = omega arith in rw (top, left) (fewest_level n)
  ]
]

fewest-le-length {ℓ} :
    {A : Type ℓ} (t : Node A) → IsBalanced t → fewest (get_height t) ≤ length (to_list t)
unfolding fewest get_height to_list
fewest-le-length null b = omega arith
fewest-le-length (node l h a r) b = rw b.0 (
    omega (
      arith,
      fewest-node (get_height l) (get_height r) b.1 b.2,
      fewest-le-length l b.3,
      fewest-le-length r b.4,
      length-append (to_list l) (a ∷ to_list r),
    ))

power-le-fewest : (k : ℕ) → 2 ^ k ≤ fewest (2 * k) + 1
unfolding fewest
power-le-fewest zero = omega arith
power-le-fewest (suc k) =
    let twice : 2 * suc k ≡ suc (suc (2 * k)) = omega arith in
    rw (twice, fewest) (omega (arith, pow-suc 2 k, power-le-fewest k, fewest-suc (2 * k)))

-- A balanced tree of height 2k or more holds at least 2 ^ k - 1 nodes, so that a search, which goes
-- down one level a step, takes logarithmically many steps.
height-bound {ℓ} :
    {A : Type ℓ} (t : Node A) (k : ℕ)
    → IsBalanced t
    → 2 * k ≤ get_height t
    → 2 ^ k ≤ length (to_list t) + 1
height-bound t k b h =
    omega (arith, power-le-fewest k, fewest-le (2 * k) (get_height t) h, fewest-le-length t b)

-- Where the comparison is an order, after an insertion into a well-formed tree whose count does
-- not wrap, the height is logarithmic in the number of nodes: a tree of height 2k or more holds at
-- least 2^k - 1.
pub insert-height {ℓ κ} :
    {P : Type ℓ} {S : Type κ} (alloc : Allocator S) (compare : Comparison P P)
    (order : IsOrder compare) (p : P) (tree : AvlTree P S)
    → IsWellFormed compare tree
    → length (contents tree) + 1 < 2 ^ 64
    → (k : ℕ) → 2 * k ≤ get_height (insert alloc compare p tree).tree.root
    → 2 ^ k ≤ length (contents (insert alloc compare p tree).tree) + 1
insert-height alloc compare order p tree wf room k h =
    height-bound _ k (insert-IsWellFormed alloc compare order p tree wf room).balanced h

-- `InsertOrFind` of what is not in a sorted and rightly counted tree, where there is memory,
-- succeeds and adds a node, and does not count it: the count is then one short.
pub insert_or_find_uncounted {ℓ κ μ} :
    {P : Type ℓ} {S : Type κ} {C : Type μ} (alloc : Allocator S) (compare : Comparison P C)
    (payload_of : C → P) (cover : C) (tree : AvlTree P S)
    → IsCut (by_payload (λ q. compare q cover)) (contents tree)
    → find alloc (λ q. compare q cover) tree ≡ none
    → is_okay (alloc.allocate tree.cookie).result ≡ true
    → tree.node_count ≡ length (contents tree)
    → let o = insert_or_find alloc compare payload_of cover tree in
      (is_okay o.result ≡ true) × (o.tree.node_count + 1 ≡ length (contents o.tree))
unfolding insert_or_find find Edit.insert_or_find
insert_or_find_uncounted {P} alloc compare payload_of cover tree k m a n =
    let test : P → Ordering = λ q. compare q cover in
    let p = payload_of cover in
    (
      rw (descend-Attempted alloc test p tree.root tree.cookie m).result a,
      omega (
        arith,
        n,
        ap length (descend-place alloc test p tree.root tree.cookie k m a),
        length-place (λ c _. test c.payload) (by_payload test) (new_cell alloc test p tree.cookie)
            (contents tree) k (sym (find-find_first test tree.root k) ∙ m),
      ),
    )
