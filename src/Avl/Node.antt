-- ===== src/Avl/Node.antt =====
-- `AvlTreeNode` of sysheaders/common/beel/utils/avl.tree.hpp: heights, rotations, rebalancing.
use beelzebub.Common.{ℕ, ◌+◌, ◌-◌, max, List, [], ◌∷◌, ◌++◌, Option, none, some, ltb, if◌then◌else◌}

-- A node's identity (its address) with its payload.
pub record Cell {ℓ} (P : Type ℓ) : Type ℓ where
  pub address : ℕ
  pub payload : P

-- A `Node *`: null, or a node with its left child, its cached `Height`, what it holds, and its
-- right child. The tree owns its nodes, so a pointer is the subtree below it.
pub data Node {ℓ} (A : Type ℓ) : Type ℓ where
  null : Node A
  node : (left : Node A) (height : ℕ) (held : A) (right : Node A) → Node A

-- The value of the `int` difference `a - b`, as its positive and its negative part.
pub record Difference : Type 0 where
  pub positive : ℕ
  pub negative : ℕ

module _ {ℓ} {A : Type ℓ} where
  unfoldable pub get_height : Node A → ℕ
  get_height null = 0
  get_height (node l h a r) = h

  -- `GetHeight(Right) - GetHeight(Left)`.
  unfoldable pub get_balance : Node A → Difference
  unfolding get_height
  get_balance null = record { positive = 0; negative = 0 }
  get_balance (node l h a r) = record {
    positive = get_height r - get_height l;
    negative = get_height l - get_height r;
  }

  -- The height that `ComputeHeight` stores in a node with these children.
  unfoldable pub compute_height : Node A → Node A → ℕ
  unfolding get_height
  compute_height l r = max (get_height l) (get_height r) + 1

  unfoldable pub find_minimum : Node A → Option A
  find_minimum null = none
  find_minimum (node null h a r) = some a
  find_minimum (node (node l k b m) h a r) = find_minimum (node l k b m)

  unfoldable pub find_maximum : Node A → Option A
  find_maximum null = none
  find_maximum (node l h a null) = some a
  find_maximum (node l h a (node m k b r)) = find_maximum (node m k b r)

  -- A rotation dereferences the child that it lifts; `Balance` makes one only where that child is
  -- there. Without it the tree is left alone here.
  unfoldable pub rotate_left : Node A → Node A
  unfolding compute_height
  rotate_left (node l h a (node m k b r)) =
      let this = node l (compute_height l m) a m in node this (compute_height this r) b r
  rotate_left t = t

  unfoldable pub rotate_right : Node A → Node A
  unfolding compute_height
  rotate_right (node (node l k b m) h a r) =
      let this = node m (compute_height m r) a r in node l (compute_height l this) b this
  rotate_right t = t

  -- `if (GetBalance(this->Right) < 0) this->Right = this->Right->RotateRight();`
  unfoldable pub lean_right : Node A → Node A
  unfolding get_balance rotate_right
  lean_right r = if ltb 0 (get_balance r).negative then rotate_right r else r

  unfoldable pub lean_left : Node A → Node A
  unfolding get_balance rotate_left
  lean_left l = if ltb 0 (get_balance l).positive then rotate_left l else l

  unfoldable pub balance : Node A → Node A
  unfolding compute_height get_balance lean_left lean_right
  balance null = null
  balance (node l h a r) =
      let h' = compute_height l r in
      let difference = get_balance (node l h' a r) in
      if ltb 1 difference.positive
      then rotate_left (node l h' a (lean_right r))
      else if ltb 1 difference.negative
      then rotate_right (node (lean_left l) h' a r)
      else node l h' a r

  -- The contents in order.
  unfoldable pub to_list : Node A → List A
  to_list null = []
  to_list (node l h a r) = to_list l ++ a ∷ to_list r
