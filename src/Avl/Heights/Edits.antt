-- ===== src/Avl/Heights/Edits.antt =====
-- Insertions and removals of avl.tree.hpp keep the height invariant.
use beelzebub.Common.{
  ℕ, ◌+◌, ◌≤◌, ◌≡◌, refl, Bool, true, false, Option, none, some, Ordering, Ordering-cases, inl, inr,
  Bool-cases, arith,
}
use beelzebub.Handles.{is_okay}
use beelzebub.Avl.Node.{Cell, Node, null, node, get_height, balance}
use beelzebub.Avl.Edit.{
  Allocator, create, descend, settle, remove_minimum, replace, unlink, settle_removal, remove,
  remove_if,
}
use beelzebub.Avl.Heights.{IsBalanced, balance-Rebalanced, balance_stays}

module _ {ℓ} {A : Type ℓ} where
  -- One insertion grows a tree by one level at most.
  pub record Grown (t t' : Node A) : Type 0 where
    pub balanced : IsBalanced t'
    pub at_least : get_height t ≤ get_height t'
    pub at_most : get_height t' ≤ get_height t + 1

  -- One removal shrinks it by one level at most.
  pub record Shrunk (t t' : Node A) : Type 0 where
    pub balanced : IsBalanced t'
    pub at_least : get_height t ≤ get_height t' + 1
    pub at_most : get_height t' ≤ get_height t

  Grown-refl : (t : Node A) → IsBalanced t → Grown t t
  Grown-refl t b = record { balanced = b; at_least = omega arith; at_most = omega arith }

  Shrunk-refl : (t : Node A) → IsBalanced t → Shrunk t t
  Shrunk-refl t b = record { balanced = b; at_least = omega arith; at_most = omega arith }

  grow_left :
      (l l' : Node A) (h : ℕ) (a : A) (r : Node A)
      → IsBalanced (node l h a r)
      → Grown l l'
      → Grown (node l h a r) (balance (node l' h a r))
  unfolding get_height
  grow_left l l' h a r b g =
      let t = balance-Rebalanced l' h a r g.balanced b.4 (omega arith) (omega arith) in
      record { balanced = t.balanced; at_least = omega arith; at_most = omega arith }

  grow_right :
      (l : Node A) (h : ℕ) (a : A) (r r' : Node A)
      → IsBalanced (node l h a r)
      → Grown r r'
      → Grown (node l h a r) (balance (node l h a r'))
  unfolding get_height
  grow_right l h a r r' b g =
      let t = balance-Rebalanced l h a r' b.3 g.balanced (omega arith) (omega arith) in
      record { balanced = t.balanced; at_least = omega arith; at_most = omega arith }

  shrink_left :
      (l l' : Node A) (h k : ℕ) (a b : A) (r : Node A)
      → IsBalanced (node l h a r)
      → Shrunk l l'
      → Shrunk (node l h a r) (balance (node l' k b r))
  unfolding get_height
  shrink_left l l' h k a b r w g =
      let t = balance-Rebalanced l' k b r g.balanced w.4 (omega arith) (omega arith) in
      record { balanced = t.balanced; at_least = omega arith; at_most = omega arith }

  shrink_right :
      (l : Node A) (h k : ℕ) (a b : A) (r r' : Node A)
      → IsBalanced (node l h a r)
      → Shrunk r r'
      → Shrunk (node l h a r) (balance (node l k b r'))
  unfolding get_height
  shrink_right l h k a b r r' w g =
      let t = balance-Rebalanced l k b r' w.3 g.balanced (omega arith) (omega arith) in
      record { balanced = t.balanced; at_least = omega arith; at_most = omega arith }

  remove_minimum-Shrunk : (t : Node A) → IsBalanced t → Shrunk t (remove_minimum t).1
  unfolding remove_minimum get_height
  remove_minimum-Shrunk null b = Shrunk-refl null b
  remove_minimum-Shrunk (node null h a r) b = record {
    balanced = b.4;
    at_least = omega arith;
    at_most = omega arith;
  }
  remove_minimum-Shrunk (node (node l k c m) h a r) b =
      shrink_left (node l k c m) _ h h a a r b (remove_minimum-Shrunk (node l k c m) b.3)

  -- A node always has a minimum.
  pub remove_minimum-some :
      (l : Node A) (h : ℕ) (a : A) (r : Node A)
      → (least : A) × ((remove_minimum (node l h a r)).0 ≡ some least)
  unfolding remove_minimum
  remove_minimum-some null h a r = (a, refl)
  remove_minimum-some (node l k c m) h a r = remove_minimum-some l k c m

  replace-Shrunk :
      (l : Node A) (h : ℕ) (a least : A) (r : Node A) (m : Option A × Node A)
      → IsBalanced (node l h a r)
      → m.0 ≡ some least
      → Shrunk r m.1
      → Shrunk (node l h a r) (replace l h m)
  unfolding replace
  replace-Shrunk l h a least r (none, rest) b e g = cc
  replace-Shrunk l h a least r (some x, rest) b e g = shrink_right l h h a x r rest b g

  pub unlink-Shrunk :
      (l : Node A) (h : ℕ) (a : A) (r : Node A)
      → IsBalanced (node l h a r)
      → Shrunk (node l h a r) (unlink l h r)
  unfolding unlink get_height
  unlink-Shrunk null h a null b = record {
    balanced = tt;
    at_least = omega arith;
    at_most = omega arith;
  }
  unlink-Shrunk null h a (node m k c r) b =
      rw (balance_stays (node m k c r) b.4)
        (record { balanced = b.4; at_least = omega arith; at_most = omega arith })
  unlink-Shrunk (node m k c r) h a null b =
      rw (balance_stays (node m k c r) b.3)
        (record { balanced = b.3; at_least = omega arith; at_most = omega arith })
  unlink-Shrunk (node l k c m) h a (node x i d y) b =
      let (least, e) = remove_minimum-some x i d y in
      replace-Shrunk (node l k c m) h a least (node x i d y) _ b e
        (remove_minimum-Shrunk (node x i d y) b.4)

module _ {ℓ κ} {P : Type ℓ} {S : Type κ} (alloc : Allocator S) (test : P → Ordering) (p : P) where
  create-Grown : (s : S) → Grown null (create alloc p s).root
  unfolding create get_height
  create-Grown s = ground arith

  settle-Grown :
      (t u : Node (Cell P)) (r : ℕ)
      → ((is_okay r ≡ true) → Grown t (balance u))
      → ((is_okay r ≡ false) → Grown t u)
      → Grown t (settle r u)
  unfolding settle
  settle-Grown t u r yes_ no_ = elim (Bool-cases (is_okay r)) [
    | inl e ↦ rw e (yes_ e)
    | inr e ↦ rw e (no_ e)
  ]

  pub descend_refused :
      (t : Node (Cell P)) (s : S)
      → is_okay (descend alloc test p t s).result ≡ false
      → (descend alloc test p t s).root ≡ t
  unfolding descend
  descend_refused null s e = ground arith
  descend_refused (node l h c r) s e = ground (arith, descend_refused l s, descend_refused r s)

  pub descend-Grown :
      (t : Node (Cell P)) (s : S) → IsBalanced t → Grown t (descend alloc test p t s).root
  unfolding descend
  descend-Grown null s b = create-Grown s
  descend-Grown (node l h c r) s b = elim (Ordering-cases (test c.payload)) [
    | inl e ↦
        rw (e, descend)
          (settle-Grown _ _ _ (λ _. grow_right l h c r _ b (descend-Grown r s b.4))
            (λ q. rw (descend_refused r s q) (Grown-refl _ b)))
    | inr (inl e) ↦ rw (e, descend) (Grown-refl _ b)
    | inr (inr e) ↦
        rw (e, descend)
          (settle-Grown _ _ _ (λ _. grow_left l _ h c r b (descend-Grown l s b.3))
            (λ q. rw (descend_refused l s q) (Grown-refl _ b)))
  ]

module _ {ℓ} {P : Type ℓ} (test : P → Ordering) where
  settle_removal-Shrunk :
      (t u : Node (Cell P)) (res : Option (Cell P))
      → ((c : Cell P) → res ≡ some c → Shrunk t (balance u))
      → (res ≡ none → Shrunk t u)
      → Shrunk t (settle_removal res u)
  unfolding settle_removal
  settle_removal-Shrunk t u none removed kept = kept refl
  settle_removal-Shrunk t u (some c) removed kept = removed c refl

  pub remove_missed : (t : Node (Cell P)) → (remove test t).0 ≡ none → (remove test t).1 ≡ t
  unfolding remove
  remove_missed null e = refl
  remove_missed (node l h c r) e = ground (arith, remove_missed l, remove_missed r)

  pub remove-Shrunk : (t : Node (Cell P)) → IsBalanced t → Shrunk t (remove test t).1
  unfolding remove
  remove-Shrunk null b = Shrunk-refl null b
  remove-Shrunk (node l h c r) b = elim (Ordering-cases (test c.payload)) [
    | inl e ↦
        rw (e, remove)
          (settle_removal-Shrunk _ _ _ (λ _ _. shrink_right l h h c c r _ b (remove-Shrunk r b.4))
            (λ q. rw (remove_missed r q) (Shrunk-refl _ b)))
    | inr (inl e) ↦ rw (e, remove) (unlink-Shrunk l h c r b)
    | inr (inr e) ↦
        rw (e, remove)
          (settle_removal-Shrunk _ _ _ (λ _ _. shrink_left l _ h h c c r b (remove-Shrunk l b.3))
            (λ q. rw (remove_missed l q) (Shrunk-refl _ b)))
  ]

  module _ (pred : Cell P → Bool) where
    pub remove_if_missed :
        (t : Node (Cell P)) → (remove_if test pred t).0 ≡ none → (remove_if test pred t).1 ≡ t
    unfolding remove_if
    remove_if_missed null e = refl
    remove_if_missed (node l h c r) e = ground (arith, remove_if_missed l, remove_if_missed r)

    pub remove_if-Shrunk : (t : Node (Cell P)) → IsBalanced t → Shrunk t (remove_if test pred t).1
    unfolding remove_if
    remove_if-Shrunk null b = Shrunk-refl null b
    remove_if-Shrunk (node l h c r) b = elim (Ordering-cases (test c.payload)) [
      | inl e ↦
          rw (e, remove_if)
            (settle_removal-Shrunk _ _ _
              (λ _ _. shrink_right l h h c c r _ b (remove_if-Shrunk r b.4))
              (λ q. rw (remove_if_missed r q) (Shrunk-refl _ b)))
      | inr (inl e) ↦ elim (Bool-cases (pred c)) [
        | inl t ↦ rw (e, t, remove_if) (unlink-Shrunk l h c r b)
        | inr f ↦ rw (e, f, remove_if) (Shrunk-refl _ b)
      ]
      | inr (inr e) ↦
          rw (e, remove_if)
            (settle_removal-Shrunk _ _ _
              (λ _ _. shrink_left l _ h h c c r b (remove_if-Shrunk l b.3))
              (λ q. rw (remove_if_missed l q) (Shrunk-refl _ b)))
    ]
