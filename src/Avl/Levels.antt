-- ===== src/Avl/Levels.antt =====
-- The level-order traversal of avl.tree.hpp, and the fuel that its loop needs.
use beelzebub.Common.{
  ℕ, zero, suc, ◌+◌, ◌≤◌, ◌<◌, max, ◌≡◌, refl, sym, ap, ap₂, ◌∙◌, fun_ext, List, [], ◌∷◌, ◌++◌,
  Bool, true, false, ◌==◌, length, length-append, dec_lt, arith,
}
use beelzebub.Avl.Node.{Node, null, node, get_height, to_list}
use beelzebub.Avl.Heights.{IsBalanced}
use beelzebub.Avl.Visit.{
  Visitor, and_then, iterate_level_order, after_level, traverse_levels, traverse,
  TreeTraversalOrder, pre_order, in_order, post_order, level_order,
}
use beelzebub.Avl.Traversal.{
  visit, visit-append, and_then-true, pre_order_list, post_order_list, pre_order-visit,
  in_order-visit, post_order-visit,
}

module _ {ℓ} {A : Type ℓ} where
  -- The nodes `d` levels below the root, from left to right.
  unfoldable pub at_depth : ℕ → Node A → List A
  at_depth d null = []
  at_depth zero (node l h a r) = a ∷ []
  at_depth (suc d) (node l h a r) = at_depth d l ++ at_depth d r

  unfoldable pub depth : Node A → ℕ
  depth null = 0
  depth (node l h a r) = suc (max (depth l) (depth r))

  -- `n` levels from depth `d` on.
  unfoldable pub levels : ℕ → ℕ → Node A → List A
  unfolding at_depth
  levels zero d t = []
  levels (suc n) d t = at_depth d t ++ levels n (d + 1) t

  at_depth_empty : (d : ℕ) (t : Node A) → depth t ≤ d → at_depth d t ≡ []
  unfolding at_depth depth
  at_depth_empty d null h = refl
  at_depth_empty zero (node l k a r) h = absurd (omega arith)
  at_depth_empty (suc d) (node l k a r) h =
      ap₂ ◌++◌ (at_depth_empty d l (omega arith)) (at_depth_empty d r (omega arith))

  at_depth_pos : (d : ℕ) (t : Node A) → d < depth t → 0 < length (at_depth d t)
  unfolding at_depth depth
  at_depth_pos d null h = absurd (omega arith)
  at_depth_pos zero (node l k a r) h = omega arith
  at_depth_pos (suc d) (node l k a r) h = elim (dec_lt d (depth l)) [
    | yes p ↦ omega (arith, at_depth_pos d l p, length-append (at_depth d l) (at_depth d r))
    | no p ↦
        omega (arith, at_depth_pos d r (omega arith), length-append (at_depth d l) (at_depth d r))
  ]

  levels_empty : (n d : ℕ) (t : Node A) → depth t ≤ d → levels n d t ≡ []
  unfolding levels
  levels_empty zero d t h = refl
  levels_empty (suc n) d t h =
      ap₂ ◌++◌ (at_depth_empty d t h) (levels_empty n (d + 1) t (omega arith))

  -- Where the heights are right, the height is the depth.
  pub depth-get_height : (t : Node A) → IsBalanced t → depth t ≡ get_height t
  unfolding depth get_height
  depth-get_height null b = refl
  depth-get_height (node l h a r) b = omega (arith, depth-get_height l b.3, depth-get_height r b.4)

-- A counted visit of `n` elements stops where the plain one, `v`, does, and leaves the same state.
record Counted {κ} {T : Type κ} (n count : ℕ) (v : Bool × T) (m : Bool × (T × ℕ)) : Type κ where
  stops : m.0 ≡ v.0
  state : m.1.0 ≡ v.1
  counts : m.0 ≡ true → m.1.1 ≡ count + n

Counted-step {κ} :
    {T : Type κ} (v : Bool × T) (n count : ℕ) (f : T → Bool × T) (g : T × ℕ → Bool × (T × ℕ))
    → ((s : T) → Counted n (count + 1) (f s) (g (s, count + 1)))
    → Counted (suc n) count (and_then v f) (and_then (v.0, (v.1, count + 1)) g)
Counted-step (true, s) n count f g h =
    let c = h s in
    record { stops = c.stops; state = c.state; counts = λ e. c.counts e ∙ omega arith }
Counted-step (false, s) n count f g h = record { stops = refl; state = refl; counts = λ e. cc }

module _ {κ} {T : Type κ} where
  after_level_last :
      {n : ℕ} {v : Bool × T} {m : Bool × (T × ℕ)}
      → Counted n 0 v m
      → (next : T → Bool × T) → n ≡ 0
      → after_level next m ≡ v
  unfolding after_level
  after_level_last {m = (false, (s, count))} c next z = ground arith
  after_level_last {m = (true, (s, zero))} c next z = ground arith
  after_level_last {m = (true, (s, suc count))} c next z = absurd (omega (arith, c.counts refl))

  after_level_more :
      {n : ℕ} {v : Bool × T} {m : Bool × (T × ℕ)}
      → Counted n 0 v m
      → (next : T → Bool × T) → 0 < n
      → after_level next m ≡ and_then v next
  unfolding after_level
  after_level_more {v = (true, w)} {m = (false, (s, count))} c next z = absurd (ground arith)
  after_level_more {v = (false, w)} {m = (false, (s, count))} c next z = ground arith
  after_level_more {m = (true, (s, zero))} c next z = absurd (omega (arith, c.counts refl))
  after_level_more {v = (true, w)} {m = (true, (s, suc count))} c next z = ground arith
  after_level_more {v = (false, w)} {m = (true, (s, suc count))} c next z = absurd (ground arith)

module _ {ℓ κ} {A : Type ℓ} {T : Type κ} (lambda : Visitor A T) where
  counting : Visitor A (T × ℕ)
  counting a (s, count) = let (go, s') = lambda a s in (go, (s', count + 1))

  level_visit :
      (d : ℕ) (t : Node A) (level target : ℕ) (s : T × ℕ)
      → target ≡ level + d
      → iterate_level_order lambda t level target s ≡ visit counting (at_depth d t) s
  unfolding iterate_level_order at_depth
  level_visit d null level target s e = unfold visit in refl
  level_visit zero (node l h a r) level target (s, count) e =
      let here : (level == target) ≡ true = ground arith in
      rw here (unfold visit counting in sym (and_then-true (counting a (s, count))))
  level_visit (suc d) (node l h a r) level target (s, count) e =
      let below : (level == target) ≡ false = ground arith in
      rw below (
        ap₂ (λ (m : Bool × (T × ℕ)) (f : T × ℕ → Bool × (T × ℕ)). and_then m f)
          (level_visit d l (level + 1) target (s, count) (omega arith))
          (fun_ext λ s'. level_visit d r (level + 1) target s' (omega arith))
        ∙ sym (visit-append counting (at_depth d l) (at_depth d r) (s, count)))

  visit-counting :
      (xs : List A) (s : T) (count : ℕ)
      → Counted (length xs) count (visit lambda xs s) (visit counting xs (s, count))
  unfolding visit counting
  visit-counting [] s count = record { stops = refl; state = refl; counts = λ _. omega arith }
  visit-counting (x ∷ xs) s count =
      Counted-step (lambda x s) (length xs) count (visit lambda xs) (visit counting xs)
        (λ s'. visit-counting xs s' (count + 1))

  -- Round `d` of the loop, and those after it.
  traverse_levels-visit :
      (fuel n d : ℕ) (t : Node A) (s : T)
      → depth t ≤ n + d
      → n < fuel
      → traverse_levels lambda fuel t d s ≡ visit lambda (levels n d t) s
  unfolding traverse_levels
  traverse_levels-visit zero n d t s h f = absurd (omega arith)
  traverse_levels-visit (suc fuel) zero d t s h f = rw (level_visit d t 0 d (s, 0) (omega arith)) (
      after_level_last (visit-counting (at_depth d t) s 0) _
        (ap length (at_depth_empty d t (omega arith)))
      ∙ ap (λ xs. visit lambda xs s)
          (at_depth_empty d t (omega arith) ∙ sym (levels_empty 0 d t (omega arith))))
  traverse_levels-visit (suc fuel) (suc n) d t s h f = elim (dec_lt d (depth t)) [
    | yes p ↦ rw (level_visit d t 0 d (s, 0) (omega arith)) (
        after_level_more (visit-counting (at_depth d t) s 0) _ (at_depth_pos d t p)
        ∙ ap (and_then (visit lambda (at_depth d t) s))
            (fun_ext λ s'. traverse_levels-visit fuel n (d + 1) t s' (omega arith) (omega arith))
        ∙ sym (unfold levels in visit-append lambda (at_depth d t) (levels n (d + 1) t) s))
    | no p ↦ rw (level_visit d t 0 d (s, 0) (omega arith)) (
        after_level_last (visit-counting (at_depth d t) s 0) _
          (ap length (at_depth_empty d t (omega arith)))
        ∙ ap (λ xs. visit lambda xs s)
            (at_depth_empty d t (omega arith) ∙ sym (levels_empty (suc n) d t (omega arith))))
  ]

-- The nodes in the order of a traversal.
pub order_list {ℓ} : {A : Type ℓ} → TreeTraversalOrder → Node A → List A
order_list pre_order t = pre_order_list t
order_list in_order t = to_list t
order_list post_order t = post_order_list t
order_list level_order t = levels (depth t) 0 t

-- `Traverse`, with fuel above the height of a balanced tree, visits every node in the order asked
-- for, until the callback returns false, and returns whether it never did.
pub traverse-visit {ℓ κ} :
    {A : Type ℓ} {T : Type κ} (lambda : Visitor A T) (fuel : ℕ) (order : TreeTraversalOrder)
    (t : Node A) (s : T)
    → IsBalanced t
    → get_height t < fuel
    → traverse lambda fuel order t s ≡ visit lambda (order_list order t) s
unfolding traverse order_list
traverse-visit lambda fuel pre_order t s b h = ap (λ f. f s) (pre_order-visit lambda t)
traverse-visit lambda fuel in_order t s b h = ap (λ f. f s) (in_order-visit lambda t)
traverse-visit lambda fuel post_order t s b h = ap (λ f. f s) (post_order-visit lambda t)
traverse-visit lambda fuel level_order t s b h =
    traverse_levels-visit lambda fuel (depth t) 0 t s (omega arith)
      (omega (arith, depth-get_height t b))
