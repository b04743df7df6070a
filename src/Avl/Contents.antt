-- ===== src/Avl/Contents.antt =====
-- The operations of avl.tree.hpp on nodes refine those on the sequence of a tree's contents.
use beelzebub.Common.{
  ℕ, ◌≡◌, refl, sym, ap, ◌∙◌, [], ◌∷◌, ◌++◌, append_assoc, append-nil, Option, none, some, Ordering,
  Ordering-cases, inl, inr, arith,
}
use beelzebub.Avl.Node.{
  Cell, Node, null, node, to_list, rotate_left, rotate_right, lean_left, lean_right, balance,
  compute_height,
}
use beelzebub.Avl.Edit.{remove_minimum, replace, unlink, find, settle_removal, remove}
use beelzebub.Avl.Sequence.{
  IsCut, IsCut-left, IsCut-right, find_first, find_first_past, find_first_here, find_first-greater,
  erase, erase_past, erase_here, erase-greater,
}

module _ {ℓ} {A : Type ℓ} where
  to_list-rotate_left : (t : Node A) → to_list (rotate_left t) ≡ to_list t
  unfolding to_list rotate_left
  to_list-rotate_left null = refl
  to_list-rotate_left (node l h a null) = refl
  to_list-rotate_left (node l h a (node m k b r)) =
      append_assoc (to_list l) (a ∷ to_list m) (b ∷ to_list r)

  to_list-rotate_right : (t : Node A) → to_list (rotate_right t) ≡ to_list t
  unfolding to_list rotate_right
  to_list-rotate_right null = refl
  to_list-rotate_right (node null h a r) = refl
  to_list-rotate_right (node (node l k b m) h a r) =
      sym (append_assoc (to_list l) (b ∷ to_list m) (a ∷ to_list r))

  to_list-lean_left : (t : Node A) → to_list (lean_left t) ≡ to_list t
  unfolding lean_left
  to_list-lean_left t = ground (arith, to_list-rotate_left t)

  to_list-lean_right : (t : Node A) → to_list (lean_right t) ≡ to_list t
  unfolding lean_right
  to_list-lean_right t = ground (arith, to_list-rotate_right t)

  -- Rebalancing moves nothing: the contents keep their order.
  pub to_list-balance : (t : Node A) → to_list (balance t) ≡ to_list t
  unfolding balance to_list
  to_list-balance null = refl
  to_list-balance (node l h a r) = ground (
    arith,
    to_list-rotate_left (node l (compute_height l r) a (lean_right r)),
    to_list-rotate_right (node (lean_left l) (compute_height l r) a r),
    to_list-lean_right r,
    to_list-lean_left l,
  )

  to_list-remove_minimum :
      (l : Node A) (h : ℕ) (a : A) (r : Node A)
      → (least : A) × ((remove_minimum (node l h a r)).0 ≡ some least)
        × (to_list (node l h a r) ≡ least ∷ to_list (remove_minimum (node l h a r)).1)
  unfolding remove_minimum to_list
  to_list-remove_minimum null h a r = (a, refl, refl)
  to_list-remove_minimum (node l k c m) h a r =
      let (least, e, q) = to_list-remove_minimum l k c m in
      (
        least,
        e,
        ap (λ xs. xs ++ a ∷ to_list r) q ∙ ap (◌∷◌ least) (sym (to_list-balance (node _ h a r))),
      )

  to_list-replace :
      (l : Node A) (h : ℕ) (r : Node A) (m : Option A × Node A) (least : A)
      → m.0 ≡ some least
      → to_list r ≡ least ∷ to_list m.1
      → to_list (replace l h m) ≡ to_list l ++ to_list r
  unfolding replace
  to_list-replace l h r (none, rest) least e q = cc
  to_list-replace l h r (some x, rest) least e q =
      let same : x ≡ least = cc in
      to_list-balance (node l h x rest)
      ∙ unfold to_list in ap (◌++◌ (to_list l)) (ap (λ y. y ∷ to_list rest) same ∙ sym q)

  -- Taking a node out leaves the contents of its children.
  pub to_list-unlink :
      (l : Node A) (h : ℕ) (r : Node A) → to_list (unlink l h r) ≡ to_list l ++ to_list r
  unfolding unlink
  to_list-unlink null h null = unfold to_list in refl
  to_list-unlink null h (node m k b r) = to_list-balance (node m k b r) ∙ unfold to_list in refl
  to_list-unlink (node l k b m) h null =
      to_list-balance (node l k b m) ∙ sym (unfold to_list in append-nil (to_list (node l k b m)))
  to_list-unlink (node l k b m) h (node m' k' b' r) =
      let (least, e, q) = to_list-remove_minimum m' k' b' r in
      to_list-replace (node l k b m) h (node m' k' b' r) _ least e q

-- The comparison of nodes by what they hold.
abbrev pub by_payload {ℓ} : {P : Type ℓ} → (P → Ordering) → Cell P → Ordering
by_payload test c = test c.payload

module _ {ℓ} {P : Type ℓ} (test : P → Ordering) where
  -- A search of the tree is a search of its contents.
  pub find-find_first :
      (t : Node (Cell P))
      → IsCut (by_payload test) (to_list t)
      → find test t ≡ find_first (by_payload test) (to_list t)
  unfolding find to_list
  find-find_first null k = unfold find_first in refl
  find-find_first (node l h c r) k = elim (Ordering-cases (test c.payload)) [
    | inl e ↦
        rw (e, find)
          (find-find_first r (IsCut-right _ (c ∷ []) _ (IsCut-right _ (to_list l) _ k))
            ∙ sym (find_first_past _ (to_list l) c (to_list r) k e))
    | inr (inl e) ↦ rw (e, find) (sym (find_first_here _ (to_list l) c (to_list r) k e))
    | inr (inr e) ↦
        rw (e, find)
          (find-find_first l (IsCut-left _ (to_list l) _ k)
            ∙ sym (find_first-greater _ (to_list l) c (to_list r) e))
  ]

  to_list-settle_removal :
      (res : Option (Cell P)) (t : Node (Cell P)) → to_list (settle_removal res t) ≡ to_list t
  unfolding settle_removal
  to_list-settle_removal none t = refl
  to_list-settle_removal (some c) t = to_list-balance t

  -- A removal takes out the element found, and gives it back.
  pub remove-erase :
      (t : Node (Cell P))
      → IsCut (by_payload test) (to_list t)
      → ((remove test t).0 ≡ find_first (by_payload test) (to_list t))
        × (to_list (remove test t).1 ≡ erase (by_payload test) (to_list t))
  unfolding remove to_list
  remove-erase null k = unfold find_first erase in (refl, refl)
  remove-erase (node l h c r) k = elim (Ordering-cases (test c.payload)) [
    | inl e ↦
        let (f, g) = remove-erase r (IsCut-right _ (c ∷ []) _ (IsCut-right _ (to_list l) _ k)) in
        rw (e, remove)
          (
            f ∙ sym (find_first_past _ (to_list l) c (to_list r) k e),
            to_list-settle_removal (remove test r).0 (node l h c (remove test r).1)
                ∙ ap (λ ys. to_list l ++ c ∷ ys) g
                ∙ sym (erase_past _ (to_list l) c (to_list r) k e),
          )
    | inr (inl e) ↦
        rw (e, remove)
          (
            sym (find_first_here _ (to_list l) c (to_list r) k e),
            to_list-unlink l h r ∙ sym (erase_here _ (to_list l) c (to_list r) k e),
          )
    | inr (inr e) ↦
        let (f, g) = remove-erase l (IsCut-left _ (to_list l) _ k) in
        rw (e, remove)
          (
            f ∙ sym (find_first-greater _ (to_list l) c (to_list r) e),
            to_list-settle_removal (remove test l).0 (node (remove test l).1 h c r)
                ∙ ap (λ xs. xs ++ c ∷ to_list r) g
                ∙ sym (erase-greater _ (to_list l) c (to_list r) e),
          )
  ]
