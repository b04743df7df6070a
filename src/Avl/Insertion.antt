-- ===== src/Avl/Insertion.antt =====
-- What the three insertions of avl.tree.hpp do, on every branch.
use beelzebub.Common.{
  ◌≡◌, sym, ap, ◌∙◌, ◌∷◌, ◌++◌, [], none, some, Ordering, Ordering-cases, inl, inr, true, arith,
}
use beelzebub.Handles.{HandleResult, is_okay, cardinality_violation}
use beelzebub.Avl.Node.{Cell, Node, null, node, to_list}
use beelzebub.Avl.Edit.{Allocator, Insertion, create, settle, descend, find}
use beelzebub.Avl.Sequence.{IsCut, IsCut-left, IsCut-right, place, place_past, place-greater}
use beelzebub.Avl.Contents.{by_payload, to_list-balance}

module _ {ℓ κ} {P : Type ℓ} {S : Type κ} (alloc : Allocator S) (test : P → Ordering) (p : P) where
  -- The node that an insertion in state `s` makes.
  abbrev pub new_cell : S → Cell P
  new_cell s = record { address = (alloc.allocate s).address; payload = p }

  abbrev duplicate : Node (Cell P) → S → Cell P → Insertion P S
  duplicate t s c = record {
    result = cardinality_violation;
    root = t;
    state = s;
    created = none;
    finding = some c;
  }

  pub descend_found :
      (t : Node (Cell P)) (s : S) (c : Cell P)
      → find test t ≡ some c
      → descend alloc test p t s ≡ duplicate t s c
  unfolding descend find
  descend_found null s c e = cc
  descend_found (node l h d r) s c e = ground (arith, descend_found l s c, descend_found r s c)

  -- Without a duplicate the allocation decides.
  pub record Attempted (s : S) (i : Insertion P S) : Type (ℓ ⊔ κ) where
    pub result : i.result ≡ (alloc.allocate s).result
    pub state : i.state ≡ (alloc.allocate s).state
    pub finding : i.finding ≡ none
    pub created : is_okay i.result ≡ true → i.created ≡ some (new_cell s)

  create-Attempted : (s : S) → Attempted s (create alloc p s)
  unfolding create
  create-Attempted s = ground arith

  pub descend-Attempted :
      (t : Node (Cell P)) (s : S) → find test t ≡ none → Attempted s (descend alloc test p t s)
  unfolding descend find
  descend-Attempted null s e = create-Attempted s
  descend-Attempted (node l h d r) s e = elim (Ordering-cases (test d.payload)) [
    | inl q ↦ rw (q, descend) (lift _ (descend-Attempted r s (ground arith)))
    | inr (inl q) ↦ absurd (ground arith)
    | inr (inr q) ↦ rw (q, descend) (lift _ (descend-Attempted l s (ground arith)))
  ]
    where
      lift :
          {i : Insertion P S} (t : Node (Cell P))
          → Attempted s i
          → Attempted s (record i { root = t })
      lift t a = record {
        result = a.result;
        state = a.state;
        finding = a.finding;
        created = a.created;
      }

  to_list-settle : (r : HandleResult) (t : Node (Cell P)) → to_list (settle r t) ≡ to_list t
  unfolding settle
  to_list-settle r t = ground (arith, to_list-balance t)

  -- With memory the new node is placed among the contents.
  pub descend-place :
      (t : Node (Cell P)) (s : S)
      → IsCut (by_payload test) (to_list t)
      → find test t ≡ none
      → is_okay (alloc.allocate s).result ≡ true
      → to_list (descend alloc test p t s).root ≡ place (by_payload test) (new_cell s) (to_list t)
  unfolding descend find to_list
  descend-place null s k e a = unfold place create in rw a
  descend-place (node l h d r) s k e a = elim (Ordering-cases (test d.payload)) [
    | inl q ↦
        rw (q, descend)
          (to_list-settle (descend alloc test p r s).result
              (node l h d (descend alloc test p r s).root)
            ∙ ap (λ ys. to_list l ++ d ∷ ys)
                (descend-place r s (IsCut-right _ (d ∷ []) _ (IsCut-right _ (to_list l) _ k))
                  (ground arith) a)
            ∙ sym (place_past _ (to_list l) d (to_list r) k q (new_cell s)))
    | inr (inl q) ↦ absurd (ground arith)
    | inr (inr q) ↦
        rw (q, descend)
          (to_list-settle (descend alloc test p l s).result
              (node (descend alloc test p l s).root h d r)
            ∙ ap (λ xs. xs ++ d ∷ to_list r)
                (descend-place l s (IsCut-left _ (to_list l) _ k) (ground arith) a)
            ∙ sym (place-greater _ (new_cell s) (to_list l) d (to_list r) q))
  ]
