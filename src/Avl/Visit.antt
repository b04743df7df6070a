-- ===== src/Avl/Visit.antt =====
-- Iteration over the nodes of an AVL tree and its clearing: `Iterate*`, `Traverse` and `Clear` of
-- sysheaders/common/beel/utils/avl.tree.hpp.
use beelzebub.Common.{ℕ, zero, suc, ◌+◌, Bool, true, false, ◌==◌, if◌then◌else◌}
use beelzebub.Handles.{HandleResult, okay, is_okay}
use beelzebub.Avl.Node.{Cell, Node, null, node}
use beelzebub.Avl.Edit.{Allocator}

pub data TreeTraversalOrder : Type 0 where
  pre_order in_order post_order level_order : TreeTraversalOrder

-- A callback over the state that it captures: false stops the iteration.
abbrev pub Visitor {ℓ κ} : Type ℓ → Type κ → Type (ℓ ⊔ κ)
Visitor A T = A → T → Bool × T

-- `if unlikely(!...) return false;` before what follows.
abbrev pub and_then {κ} : {T : Type κ} → Bool × T → (T → Bool × T) → Bool × T
and_then (true, s) next = next s
and_then (false, s) next = (false, s)

-- The end of a round of the `do ... while (count > 0)` of `Traverse`.
unfoldable pub after_level {κ} : {T : Type κ} → (T → Bool × T) → Bool × (T × ℕ) → Bool × T
after_level next (false, (s, count)) = (false, s)
after_level next (true, (s, zero)) = (true, s)
after_level next (true, (s, suc count)) = next s

module _ {ℓ κ} {A : Type ℓ} {T : Type κ} (lambda : Visitor A T) where
  unfoldable pub iterate_pre_order : Node A → T → Bool × T
  iterate_pre_order null s = (true, s)
  iterate_pre_order (node l h a r) s =
      and_then (and_then (lambda a s) (iterate_pre_order l)) (iterate_pre_order r)

  unfoldable pub iterate_in_order : Node A → T → Bool × T
  iterate_in_order null s = (true, s)
  iterate_in_order (node l h a r) s =
      and_then (and_then (iterate_in_order l s) (lambda a)) (iterate_in_order r)

  unfoldable pub iterate_post_order : Node A → T → Bool × T
  iterate_post_order null s = (true, s)
  iterate_post_order (node l h a r) s =
      and_then (and_then (iterate_post_order l s) (iterate_post_order r)) (lambda a)

  -- The state carries `count`, which the source passes by reference.
  unfoldable pub iterate_level_order : Node A → ℕ → ℕ → T × ℕ → Bool × (T × ℕ)
  iterate_level_order null level target s = (true, s)
  iterate_level_order (node l h a r) level target (s, count) =
      let deeper =
        and_then (iterate_level_order l (level + 1) target (s, count))
          (iterate_level_order r (level + 1) target) in
      let (go, s') = lambda a s in if level == target then (go, (s', count + 1)) else deeper

  -- That loop, a level a round, on fuel.
  unfoldable pub traverse_levels : ℕ → Node A → ℕ → T → Bool × T
  unfolding iterate_level_order after_level
  traverse_levels zero root level s = (false, s)
  traverse_levels (suc fuel) root level s =
      after_level (traverse_levels fuel root (level + 1)) (iterate_level_order root 0 level (s, 0))

  unfoldable pub traverse : ℕ → TreeTraversalOrder → Node A → T → Bool × T
  traverse fuel pre_order root = iterate_pre_order root
  traverse fuel in_order root = iterate_in_order root
  traverse fuel post_order root = iterate_post_order root
  traverse fuel level_order root = traverse_levels fuel root 0

-- The handle that `Clear` returns: that of the left child, the right child or the node itself.
unfoldable pub first_failure : HandleResult → HandleResult → HandleResult → HandleResult
first_failure res1 res2 res3 = if is_okay res1 then (if is_okay res2 then res3 else res2) else res1

module _ {ℓ κ} {P : Type ℓ} {S : Type κ} (alloc : Allocator S) where
  unfoldable pub clear : Node (Cell P) → S → HandleResult × S
  unfolding first_failure
  clear null s = (okay, s)
  clear (node l h c r) s =
      let (res1, s1) = clear l s in
      let (res2, s2) = clear r s1 in
      let (res3, s3) = alloc.release c.address s2 in (first_failure res1 res2 res3, s3)
