-- ===== src/Avl/Traversal.antt =====
-- Each traversal of avl.tree.hpp visits one list of the nodes in turn, until the callback stops it.
use beelzebub.Common.{
  ◌≡◌, refl, sym, ap, ap₂, fun_ext, ◌∙◌, List, [], ◌∷◌, ◌++◌, Bool, true, false, if◌then◌else◌,
  arith,
}
use beelzebub.Handles.{HandleResult, okay, is_okay}
use beelzebub.Avl.Node.{Cell, Node, null, node, to_list}
use beelzebub.Avl.Edit.{Allocator}
use beelzebub.Avl.Visit.{
  Visitor, and_then, iterate_pre_order, iterate_in_order, iterate_post_order, clear,
}

module _ {ℓ} {A : Type ℓ} where
  unfoldable pub pre_order_list : Node A → List A
  pre_order_list null = []
  pre_order_list (node l h a r) = a ∷ (pre_order_list l ++ pre_order_list r)

  unfoldable pub post_order_list : Node A → List A
  post_order_list null = []
  post_order_list (node l h a r) = post_order_list l ++ (post_order_list r ++ a ∷ [])

module _ {κ} {T : Type κ} where
  and_then_assoc :
      (m : Bool × T) (f g : T → Bool × T)
      → and_then (and_then m f) g ≡ and_then m (λ s. and_then (f s) g)
  and_then_assoc (true, s) f g = refl
  and_then_assoc (false, s) f g = refl

  pub and_then-true : (m : Bool × T) → and_then m (λ s. (true, s)) ≡ m
  and_then-true (true, s) = refl
  and_then-true (false, s) = refl

module _ {ℓ κ} {A : Type ℓ} {T : Type κ} (lambda : Visitor A T) where
  -- Visiting a list in turn.
  unfoldable pub visit : List A → T → Bool × T
  visit [] s = (true, s)
  visit (a ∷ as_) s = and_then (lambda a s) (visit as_)

  pub visit-append :
      (xs ys : List A) (s : T) → visit (xs ++ ys) s ≡ and_then (visit xs s) (visit ys)
  unfolding visit
  visit-append [] ys s = refl
  visit-append (x ∷ xs) ys s =
      ap (and_then (lambda x s)) (fun_ext (visit-append xs ys))
      ∙ sym (and_then_assoc (lambda x s) (visit xs) (visit ys))

  pub pre_order-visit : (t : Node A) → iterate_pre_order lambda t ≡ visit (pre_order_list t)
  unfolding iterate_pre_order pre_order_list visit
  pre_order-visit null = refl
  pre_order-visit (node l h a r) = fun_ext λ s.
      and_then_assoc (lambda a s) (iterate_pre_order lambda l) (iterate_pre_order lambda r)
      ∙ ap (and_then (lambda a s)) (
          fun_ext λ s'.
            ap₂ (λ (f g : T → Bool × T). and_then (f s') g) (pre_order-visit l) (pre_order-visit r)
            ∙ sym (visit-append (pre_order_list l) (pre_order_list r) s'))

  pub in_order-visit : (t : Node A) → iterate_in_order lambda t ≡ visit (to_list t)
  unfolding iterate_in_order to_list visit
  in_order-visit null = refl
  in_order-visit (node l h a r) = fun_ext λ s.
      ap₂ (λ (f g : T → Bool × T). and_then (and_then (f s) (lambda a)) g) (in_order-visit l)
        (in_order-visit r)
      ∙ and_then_assoc (visit (to_list l) s) (lambda a) (visit (to_list r))
      ∙ sym (visit-append (to_list l) (a ∷ to_list r) s)

  pub post_order-visit : (t : Node A) → iterate_post_order lambda t ≡ visit (post_order_list t)
  unfolding iterate_post_order post_order_list visit
  post_order-visit null = refl
  post_order-visit (node l h a r) = fun_ext λ s.
      ap₂ (λ (f g : T → Bool × T). and_then (and_then (f s) g) (lambda a)) (post_order-visit l)
        (post_order-visit r)
      ∙ and_then_assoc (visit (post_order_list l) s) (visit (post_order_list r)) (lambda a)
      ∙ ap (and_then (visit (post_order_list l) s)) (
          fun_ext λ s'.
            ap (and_then (visit (post_order_list r) s'))
              (fun_ext λ s''. sym (and_then-true (lambda a s'')))
            ∙ sym (visit-append (post_order_list r) (a ∷ []) s'))
      ∙ sym (visit-append (post_order_list l) (post_order_list r ++ a ∷ []) s)

module _ {ℓ κ} {P : Type ℓ} {S : Type κ} (alloc : Allocator S) where
  -- `RemoveNode` on each node in turn, and the first handle that is not okay.
  unfoldable pub release_all : List (Cell P) → S → HandleResult × S
  release_all [] s = (okay, s)
  release_all (c ∷ cs) s =
      let (res, s1) = alloc.release c.address s in
      let (rest, s2) = release_all cs s1 in ((if is_okay res then rest else res), s2)

  release_all-append :
      (xs ys : List (Cell P)) (s : S)
      → release_all (xs ++ ys) s ≡ (
          let (r, s1) = release_all xs s in
          let (q, s2) = release_all ys s1 in ((if is_okay r then q else r), s2))
  unfolding release_all
  release_all-append [] ys s = refl
  release_all-append (x ∷ xs) ys s =
      ground (arith, release_all-append xs ys (alloc.release x.address s).1)

  -- `Clear` gives every node back once, children before their parent, goes on past failures, and
  -- returns the first failure.
  pub clear-release_all :
      (t : Node (Cell P)) (s : S) → clear alloc t s ≡ release_all (post_order_list t) s
  unfolding clear post_order_list
  clear-release_all null s = unfold release_all in refl
  clear-release_all (node l h c r) s =
      let s1 = (release_all (post_order_list l) s).1 in
      rw
        (
          clear-release_all l s,
          clear-release_all r s1,
          release_all-append (post_order_list l) (post_order_list r ++ c ∷ []) s,
          release_all-append (post_order_list r) (c ∷ []) s1,
        )
        (unfold release_all in ground arith)
