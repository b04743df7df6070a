-- ===== src/Avl/Inserting.antt =====
-- `AvlTree::Insert` of avl.tree.hpp keeps a tree well formed and acts as the insertion of a map.
use beelzebub.Common.{
  ◌+◌, ◌^◌, ◌<◌, ◌≡◌, sym, ap, ◌∙◌, ◌≢◌, inl, inr, none, some, Option-cases, true, false,
  Bool-cases, Ordering, Ordering-cases, length, u64, arith,
}
use beelzebub.Handles.{is_okay}
use beelzebub.Avl.Node.{Cell}
use beelzebub.Avl.Edit.{Allocator, Comparison, Insertion}
use beelzebub.Avl.Edit
use beelzebub.Avl.Heights.Edits.{descend-Grown, descend_refused}
use beelzebub.Avl.Sequence.{IsCut, find_first, place}
use beelzebub.Avl.Contents.{by_payload, find-find_first}
use beelzebub.Avl.Insertion.{new_cell, descend_found, descend-Attempted, descend-place}
use beelzebub.Avl.Order.{IsKey, IsOrder, IsSorted, IsSorted-IsCut, place-IsSorted, length-place}
use beelzebub.Avl.Placement.{find_first-place_self, find_first-place_other}
use beelzebub.Avl.Tree.{AvlTree, find, insert}
use beelzebub.Avl.Invariant.{
  by_payloads, contents, IsWellFormed, cell-IsKey, wf-IsCut, find-contents, same-IsWellFormed,
}

module _ {ℓ κ} {P : Type ℓ} {S : Type κ} (alloc : Allocator S) (compare : Comparison P P)
    (order : IsOrder compare) (p : P) (tree : AvlTree P S) (wf : IsWellFormed compare tree) where
  abbrev test : P → Ordering
  test q = compare q p

  cut : IsCut (by_payload test) (contents tree)
  cut = wf-IsCut wf (order.is_key p)

  abbrev new : Cell P
  new = new_cell alloc test p tree.cookie

  missing : find alloc test tree ≡ none → find_first (by_payload test) (contents tree) ≡ none
  unfolding find
  missing m = sym (find-find_first test tree.root cut) ∙ m

  attempt : Insertion P S
  attempt = Edit.insert alloc compare p tree.root tree.cookie

  module _ (m : find alloc test tree ≡ none)
      (a : is_okay (alloc.allocate tree.cookie).result ≡ true) where
    attempt_okay : is_okay attempt.result ≡ true
    unfolding attempt find Edit.insert
    attempt_okay = rw (descend-Attempted alloc test p tree.root tree.cookie m).result a

    insert-place :
        contents (insert alloc compare p tree).tree ≡ place (by_payload test) new (contents tree)
    unfolding insert find Edit.insert
    insert-place = descend-place alloc test p tree.root tree.cookie cut m a

    sequence-IsSorted : IsSorted (by_payloads compare) (place (by_payload test) new (contents tree))
    sequence-IsSorted =
        place-IsSorted (by_payloads compare) (by_payload test) new (λ c e. e)
          (λ c e. order.flip_gt c.payload p e) (contents tree) cut wf.sorted

    insert_counts : (insert alloc compare p tree).tree.node_count ≡ u64 (tree.node_count + 1)
    unfolding insert attempt
    insert_counts = let got : is_okay attempt.result ≡ true = attempt_okay in rw got

    place-length : length (contents (insert alloc compare p tree).tree) ≡ length (contents tree) + 1
    place-length =
        ap length insert-place
        ∙ length-place (by_payloads compare) (by_payload test) new (contents tree) cut (missing m)

    grown-IsWellFormed :
        length (contents tree) + 1 < 2 ^ 64
        → IsWellFormed compare (insert alloc compare p tree).tree
    grown-IsWellFormed room = record {
      balanced =
          unfold insert Edit.insert in
          (descend-Grown alloc test p tree.root tree.cookie wf.balanced).balanced;
      sorted = rw insert-place sequence-IsSorted;
      counted = omega (arith, insert_counts, place-length, wf.counted);
    }

  -- An insertion that succeeds found no such payload and had memory.
  succeeded :
      is_okay attempt.result ≡ true
      → (find alloc test tree ≡ none) × (is_okay (alloc.allocate tree.cookie).result ≡ true)
  unfolding attempt find Edit.insert
  succeeded e = elim (Option-cases (Edit.find test tree.root)) [
    | inl m ↦ (m, rw (descend-Attempted alloc test p tree.root tree.cookie m).result at e)
    | inr (c, f) ↦ absurd (ground (arith, descend_found alloc test p tree.root tree.cookie c f))
  ]

  -- An insertion that gets no node leaves the tree and its count alone.
  refused_same :
      is_okay attempt.result ≡ false
      → ((insert alloc compare p tree).tree.root ≡ tree.root)
        × ((insert alloc compare p tree).tree.node_count ≡ tree.node_count)
  unfolding insert attempt Edit.insert
  refused_same e = (descend_refused alloc test p tree.root tree.cookie e, rw e)

  -- Where the comparison is an order, an insertion keeps a well-formed tree balanced, sorted and
  -- rightly counted, whether it adds a node, finds the payload there already or gets no memory, as
  -- long as the count does not wrap.
  pub insert-IsWellFormed :
      length (contents tree) + 1 < 2 ^ 64 → IsWellFormed compare (insert alloc compare p tree).tree
  insert-IsWellFormed room = elim (Bool-cases (is_okay attempt.result)) [
    | inr e ↦ same-IsWellFormed wf (refused_same e).0 (refused_same e).1
    | inl e ↦ let (m, a) = succeeded e in grown-IsWellFormed m a room
  ]

  module _ (m : find alloc test tree ≡ none)
      (a : is_okay (alloc.allocate tree.cookie).result ≡ true) (key : P → Ordering)
      (k : IsKey compare key) where
    after :
        find alloc key (insert alloc compare p tree).tree
        ≡ find_first (by_payload key) (place (by_payload test) new (contents tree))
    after =
        find-contents alloc _ key k (rw (insert-place m a) (sequence-IsSorted m a))
        ∙ ap (find_first (by_payload key)) (insert-place m a)

    after-IsCut : IsCut (by_payload key) (place (by_payload test) new (contents tree))
    after-IsCut = IsSorted-IsCut (by_payloads compare) (cell-IsKey k) _ (sequence-IsSorted m a)

    after_self : key p ≡ Ordering.eq → find alloc key (insert alloc compare p tree).tree ≡ some new
    after_self q =
        after
        ∙ find_first-place_self (by_payload test) (by_payload key) new (contents tree) cut
            (missing m) after-IsCut q

    after_other :
        key p ≢ Ordering.eq
        → find alloc key (insert alloc compare p tree).tree ≡ find alloc key tree
    after_other n =
        after
        ∙ find_first-place_other (by_payload test) (by_payload key) new (contents tree) cut
            (missing m) after-IsCut n
        ∙ sym (find-contents alloc tree key k wf.sorted)

  -- Where the comparison is an order, after an insertion into a well-formed tree that succeeds, a
  -- search finds the new node by a key that is equal to its payload, and by every other key what
  -- it found before.
  pub insert-find :
      is_okay (insert alloc compare p tree).result ≡ true
      → (key : P → Ordering) → IsKey compare key
      → find alloc key (insert alloc compare p tree).tree
        ≡ (elim (key p) [ Ordering.eq ↦ some new | _ ↦ find alloc key tree ])
  insert-find e key k =
      let e' : is_okay attempt.result ≡ true = unfold insert attempt in e in
      let (m, a) = succeeded e' in
      elim (Ordering-cases (key p)) [
        | inl q ↦ rw q (after_other m a key k (λ r. ground arith))
        | inr (inl q) ↦ rw q (after_self m a key k q)
        | inr (inr q) ↦ rw q (after_other m a key k (λ r. ground arith))
      ]
