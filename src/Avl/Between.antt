-- ===== src/Avl/Between.antt =====
-- Insertion, removal and search in an `AvlTree` of avl.tree.hpp at a known place of its contents.
use beelzebub.Common.{◌≡◌, refl, sym, ap, ◌∙◌, List, [], ◌∷◌, ◌++◌, true, none, some, Ordering, All}
use beelzebub.Handles.{is_okay}
use beelzebub.Avl.Node.{Cell, to_list}
use beelzebub.Avl.Edit.{Allocator, Comparison}
use beelzebub.Avl.Edit
use beelzebub.Avl.Sequence.{
  IsLess, IsGreater, IsCut, find_first, place, erase, find_first-less, place-less, erase-less,
}
use beelzebub.Avl.Contents.{by_payload, find-find_first, remove-erase}
use beelzebub.Avl.Insertion.{new_cell, descend-Attempted, descend-place}
use beelzebub.Avl.Removing.{give_back-root, give_back-some}
use beelzebub.Avl.Tree.{AvlTree, find, insert, remove}
use beelzebub.Avl.Invariant.{contents}

module _ {ℓ} {A : Type ℓ} (test : A → Ordering) where
  greater-IsCut : (ys : List A) → All (IsGreater test) ys → IsCut test ys
  greater-IsCut [] h = tt
  greater-IsCut (y ∷ ys) h = ((λ _. greater-IsCut ys h.1), (λ _. h.1))

  -- Elements that are less may stand before a cut sequence.
  less-IsCut : (xs ys : List A) → All (IsLess test) xs → IsCut test ys → IsCut test (xs ++ ys)
  less-IsCut [] ys h k = k
  less-IsCut (x ∷ xs) ys h k = ((λ _. less-IsCut xs ys h.1 k), (λ n. absurd (n h.0)))

  find_first_above : (ys : List A) → All (IsGreater test) ys → find_first test ys ≡ none
  unfolding find_first
  find_first_above [] h = refl
  find_first_above (y ∷ ys) h = rw (h.0, find_first)

  place_above : (new : A) (ys : List A) → All (IsGreater test) ys → place test new ys ≡ new ∷ ys
  unfolding place
  place_above new [] h = refl
  place_above new (y ∷ ys) h = rw (h.0, place)

module _ {ℓ κ} {P : Type ℓ} {S : Type κ} (alloc : Allocator S) where
  -- Nothing is found between the smaller and the larger ones.
  pub find_gap :
      (test : P → Ordering) (tree : AvlTree P S) (xs ys : List (Cell P))
      → contents tree ≡ xs ++ ys
      → All (IsLess (by_payload test)) xs
      → All (IsGreater (by_payload test)) ys
      → find alloc test tree ≡ none
  unfolding find
  find_gap test tree xs ys q below above =
      find-find_first test tree.root (rw q (less-IsCut _ xs ys below (greater-IsCut _ ys above)))
      ∙ ap (find_first (by_payload test)) q
      ∙ find_first-less _ xs ys below
      ∙ find_first_above _ ys above

  module _ (compare : Comparison P P) (p : P) (tree : AvlTree P S) (xs ys : List (Cell P))
      (q : contents tree ≡ xs ++ ys) (below : All (IsLess (by_payload (λ r. compare r p))) xs)
      (above : All (IsGreater (by_payload (λ r. compare r p))) ys) where
    abbrev test : P → Ordering
    test r = compare r p

    abbrev pub added : Cell P
    added = new_cell alloc test p tree.cookie

    gap-IsCut : IsCut (by_payload test) (contents tree)
    gap-IsCut = rw q (less-IsCut _ xs ys below (greater-IsCut _ ys above))

    gap-find : Edit.find test tree.root ≡ none
    gap-find = unfold find in find_gap test tree xs ys q below above

    pub gap-allocated : (insert alloc compare p tree).result ≡ (alloc.allocate tree.cookie).result
    unfolding insert Edit.insert
    gap-allocated = (descend-Attempted alloc test p tree.root tree.cookie gap-find).result

    -- Between the smaller and the larger ones the new node is put.
    pub insert_between :
        is_okay (insert alloc compare p tree).result ≡ true
        → (is_okay (alloc.allocate tree.cookie).result ≡ true)
          × ((insert alloc compare p tree).payload ≡ some added)
          × ((insert alloc compare p tree).tree.cookie ≡ (alloc.allocate tree.cookie).state)
          × (contents (insert alloc compare p tree).tree ≡ xs ++ added ∷ ys)
    unfolding insert Edit.insert
    insert_between e =
        let a : is_okay (alloc.allocate tree.cookie).result ≡ true = rw (sym gap-allocated) e in
        let attempt = descend-Attempted alloc test p tree.root tree.cookie gap-find in
        (
          a,
          rw e (attempt.created e),
          attempt.state,
          descend-place alloc test p tree.root tree.cookie gap-IsCut gap-find a
              ∙ ap (place (by_payload test) added) q
              ∙ place-less _ added xs ys below
              ∙ ap (◌++◌ xs) (place_above _ added ys above),
        )

  module _ (test : P → Ordering) (tree : AvlTree P S) (xs : List (Cell P)) (c : Cell P)
      (ys : List (Cell P)) (q : contents tree ≡ xs ++ c ∷ ys)
      (below : All (IsLess (by_payload test)) xs) (here : test c.payload ≡ Ordering.eq)
      (above : All (IsGreater (by_payload test)) ys) where
    spot-IsCut : IsCut (by_payload test) (contents tree)
    spot-IsCut =
        rw q (less-IsCut _ xs (c ∷ ys) below ((λ _. greater-IsCut _ ys above), (λ _. above)))

    spot-find_first : find_first (by_payload test) (contents tree) ≡ some c
    spot-find_first =
        ap (find_first (by_payload test)) q
        ∙ find_first-less _ xs (c ∷ ys) below
        ∙ unfold find_first in rw (here, find_first)

    pub find_between : find alloc test tree ≡ some c
    unfolding find
    find_between = find-find_first test tree.root spot-IsCut ∙ spot-find_first

    -- The node between the smaller and the larger ones is taken out and released.
    pub remove_between :
        ((remove alloc test tree).result ≡ (alloc.release c.address tree.cookie).0)
        × ((remove alloc test tree).tree.cookie ≡ (alloc.release c.address tree.cookie).1)
        × (contents (remove alloc test tree).tree ≡ xs ++ ys)
    unfolding remove
    remove_between =
        let (f, g) = remove-erase test tree.root spot-IsCut in
        let back = give_back-some alloc tree (Edit.remove test tree.root) c (f ∙ spot-find_first) in
        (
          back.1,
          back.2,
          ap to_list (give_back-root alloc tree (Edit.remove test tree.root))
              ∙ g
              ∙ ap (erase (by_payload test)) q
              ∙ erase-less _ xs (c ∷ ys) below
              ∙ ap (◌++◌ xs) (unfold erase in rw (here, erase)),
        )
