-- ===== src/Avl/Conditional.antt =====
-- `AvlTree::RemoveIf` of avl.tree.hpp against `Remove`.
use beelzebub.Common.{
  ℕ, ◌≡◌, refl, ap, ◌∙◌, inl, inr, Bool, true, false, Option, none, some, Ordering, Ordering-cases,
  if◌then◌else◌,
}
use beelzebub.Handles.{not_found}
use beelzebub.Avl.Node.{Cell, Node, null, node}
use beelzebub.Avl.Edit.{Allocator, settle_removal}
use beelzebub.Avl.Edit
use beelzebub.Avl.Tree.{AvlTree, Outcome, give_back}
use beelzebub.Avl.Tree

module _ {ℓ} {P : Type ℓ} (test : P → Ordering) (pred : Cell P → Bool) where
  abbrev accepts : Option (Cell P) → Bool
  accepts none = false
  accepts (some c) = pred c

  -- What is left of a child, and what its parent becomes.
  abbrev on_left :
      ℕ → Cell P → Node (Cell P) → Option (Cell P) × Node (Cell P) → Option (Cell P) × Node (Cell P)
  on_left h c r (res, l) = (res, settle_removal res (node l h c r))

  abbrev on_right :
      Node (Cell P) → ℕ → Cell P → Option (Cell P) × Node (Cell P) → Option (Cell P) × Node (Cell P)
  on_right l h c (res, r) = (res, settle_removal res (node l h c r))

  choose :
      (b : Bool) (f : Option (Cell P) × Node (Cell P) → Option (Cell P) × Node (Cell P))
      (x y : Option (Cell P) × Node (Cell P))
      → f (if b then x else y) ≡ (if b then f x else f y)
  choose true f x y = refl
  choose false f x y = refl

  remove_if-remove :
      (t : Node (Cell P))
      → Edit.remove_if test pred t
        ≡ (if accepts (Edit.find test t) then Edit.remove test t else (none, t))
  unfolding Edit.remove_if Edit.remove Edit.find settle_removal
  remove_if-remove null = refl
  remove_if-remove (node l h c r) = elim (Ordering-cases (test c.payload)) [
    | inl e ↦
        rw (e, Edit.remove_if, Edit.find, Edit.remove)
          (ap (on_right l h c) (remove_if-remove r)
            ∙ choose (accepts (Edit.find test r)) (on_right l h c) (Edit.remove test r) (none, r))
    | inr (inl e) ↦ rw (e, Edit.remove_if, Edit.find, Edit.remove) refl
    | inr (inr e) ↦
        rw (e, Edit.remove_if, Edit.find, Edit.remove)
          (ap (on_left h c r) (remove_if-remove l)
            ∙ choose (accepts (Edit.find test l)) (on_left h c r) (Edit.remove test l) (none, l))
  ]

-- `RemoveIf` does what `Remove` does where a search finds a node that the predicate accepts. Otherwise
-- it returns `NotFound`, and the tree and the allocator's state are as they were.
pub remove_if-outcome {ℓ κ} :
    {P : Type ℓ} {S : Type κ} (alloc : Allocator S) (test : P → Ordering) (pred : Cell P → Bool)
    (tree : AvlTree P S)
    → Tree.remove_if alloc test pred tree ≡ (
        if accepts test pred (Tree.find alloc test tree)
        then Tree.remove alloc test tree
        else record { result = not_found; payload = none; tree = tree })
unfolding Tree.remove_if Tree.find Tree.remove give_back
remove_if-outcome alloc test pred tree =
    ap (give_back alloc tree) (remove_if-remove test pred tree.root)
    ∙ pick (accepts test pred (Edit.find test tree.root))
  where
    pick :
        (b : Bool)
        → give_back alloc tree (if b then Edit.remove test tree.root else (none, tree.root)) ≡ (
            if b
            then give_back alloc tree (Edit.remove test tree.root)
            else record { result = not_found; payload = none; tree = tree })
    pick true = refl
    pick false = refl
