-- ===== src/Avl/Heights.antt =====
-- The height invariant of avl.tree.hpp: cached heights are right, and siblings differ by one at most.
pub mod Edits
use beelzebub.Common.{ℕ, suc, ◌+◌, ◌≤◌, ◌<◌, ◌≡◌, ◌⊎◌, max, refl, ◌∙◌, ap, arith, dec_lt}
use beelzebub.Avl.Node.{
  Node, null, node, get_height, compute_height, rotate_left, rotate_right, lean_left, lean_right,
  balance,
}

module _ {ℓ} {A : Type ℓ} where
  abbrev pub IsBalanced : Node A → Type 0
  IsBalanced null = Unit {0}
  IsBalanced (node l h a r) =
      (h ≡ suc (max (get_height l) (get_height r)))
      × (get_height l ≤ get_height r + 1)
      × (get_height r ≤ get_height l + 1)
      × IsBalanced l
      × IsBalanced r

  -- What `Balance` makes of two balanced children that differ by two at most.
  pub record Rebalanced (l r t : Node A) : Type 0 where
    pub balanced : IsBalanced t
    pub at_least : max (get_height l) (get_height r) ≤ get_height t
    pub at_most : get_height t ≤ suc (max (get_height l) (get_height r))
    pub exact :
        (get_height r + 2 ≤ get_height l)
        ⊎ ((get_height l + 2 ≤ get_height r)
            ⊎ (get_height t ≡ suc (max (get_height l) (get_height r))))

  balance_right :
      (l : Node A) (h : ℕ) (a : A) (r : Node A)
      → get_height r ≡ get_height l + 2
      → balance (node l h a r) ≡ rotate_left (node l (compute_height l r) a (lean_right r))
  unfolding balance get_height
  balance_right l h a r e = ground arith

  balance_left :
      (l : Node A) (h : ℕ) (a : A) (r : Node A)
      → get_height l ≡ get_height r + 2
      → balance (node l h a r) ≡ rotate_right (node (lean_left l) (compute_height l r) a r)
  unfolding balance get_height
  balance_left l h a r e = ground arith

  balance_level :
      (l : Node A) (h : ℕ) (a : A) (r : Node A)
      → get_height l ≤ get_height r + 1
      → get_height r ≤ get_height l + 1
      → balance (node l h a r) ≡ node l (compute_height l r) a r
  unfolding balance get_height
  balance_level l h a r p q = ground arith

  lean_right_stays :
      (l : Node A) (h : ℕ) (a : A) (r : Node A)
      → get_height l ≤ get_height r
      → lean_right (node l h a r) ≡ node l h a r
  unfolding lean_right get_height
  lean_right_stays l h a r p = ground arith

  lean_right_turns :
      (l : Node A) (h : ℕ) (a : A) (r : Node A)
      → get_height r < get_height l
      → lean_right (node l h a r) ≡ rotate_right (node l h a r)
  unfolding lean_right get_height
  lean_right_turns l h a r p = ground arith

  lean_left_stays :
      (l : Node A) (h : ℕ) (a : A) (r : Node A)
      → get_height r ≤ get_height l
      → lean_left (node l h a r) ≡ node l h a r
  unfolding lean_left get_height
  lean_left_stays l h a r p = ground arith

  lean_left_turns :
      (l : Node A) (h : ℕ) (a : A) (r : Node A)
      → get_height l < get_height r
      → lean_left (node l h a r) ≡ rotate_left (node l h a r)
  unfolding lean_left get_height
  lean_left_turns l h a r p = ground arith

  balance_right_heavy :
      (l : Node A) (h : ℕ) (a : A) (r : Node A)
      → IsBalanced l
      → IsBalanced r
      → get_height r ≡ get_height l + 2
      → Rebalanced l r (balance (node l h a r))
  unfolding rotate_left rotate_right get_height
  balance_right_heavy l h a null bl br e = absurd (omega arith)
  balance_right_heavy l h a (node null k c w) bl br e =
      rw (balance_right l h a (node null k c w) e, lean_right_stays null k c w (omega arith))
        (ground arith)
  balance_right_heavy l h a (node (node z j d v) k c w) bl br e = elim (dec_lt (get_height w) j) [
    | yes p ↦
        rw
          (
            balance_right l h a (node (node z j d v) k c w) e,
            lean_right_turns (node z j d v) k c w p,
          )
          (ground arith)
    | no p ↦
        rw
          (
            balance_right l h a (node (node z j d v) k c w) e,
            lean_right_stays (node z j d v) k c w (omega arith),
          )
          (ground arith)
  ]

  balance_left_heavy :
      (l : Node A) (h : ℕ) (a : A) (r : Node A)
      → IsBalanced l
      → IsBalanced r
      → get_height l ≡ get_height r + 2
      → Rebalanced l r (balance (node l h a r))
  unfolding rotate_left rotate_right get_height
  balance_left_heavy null h a r bl br e = absurd (omega arith)
  balance_left_heavy (node w k c null) h a r bl br e =
      rw (balance_left (node w k c null) h a r e, lean_left_stays w k c null (omega arith))
        (ground arith)
  balance_left_heavy (node w k c (node z j d v)) h a r bl br e = elim (dec_lt (get_height w) j) [
    | yes p ↦
        rw
          (balance_left (node w k c (node z j d v)) h a r e, lean_left_turns w k c (node z j d v) p)
          (ground arith)
    | no p ↦
        rw
          (
            balance_left (node w k c (node z j d v)) h a r e,
            lean_left_stays w k c (node z j d v) (omega arith),
          )
          (ground arith)
  ]

  balance_even :
      (l : Node A) (h : ℕ) (a : A) (r : Node A)
      → IsBalanced l
      → IsBalanced r
      → get_height l ≤ get_height r + 1
      → get_height r ≤ get_height l + 1
      → Rebalanced l r (balance (node l h a r))
  unfolding get_height compute_height
  balance_even l h a r bl br p q = rw (balance_level l h a r p q) (ground arith)

  pub balance-Rebalanced :
      (l : Node A) (h : ℕ) (a : A) (r : Node A)
      → IsBalanced l
      → IsBalanced r
      → get_height l ≤ get_height r + 2
      → get_height r ≤ get_height l + 2
      → Rebalanced l r (balance (node l h a r))
  balance-Rebalanced l h a r bl br p q = elim (dec_lt (get_height l) (get_height r + 2)) [
    | yes below ↦ elim (dec_lt (get_height r) (get_height l + 2)) [
      | yes above ↦ balance_even l h a r bl br (omega arith) (omega arith)
      | no heavy ↦ balance_right_heavy l h a r bl br (omega arith)
    ]
    | no heavy ↦ balance_left_heavy l h a r bl br (omega arith)
  ]

  -- A balanced node is left alone.
  pub balance_stays : (t : Node A) → IsBalanced t → balance t ≡ t
  unfolding get_height compute_height
  balance_stays null b = unfold balance in refl
  balance_stays (node l h a r) b =
      balance_level l h a r b.1 b.2 ∙ ap (λ k. node l k a r) (omega arith)
