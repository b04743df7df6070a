-- ===== src/Avl/Removing.antt =====
-- `AvlTree::Remove` of avl.tree.hpp keeps a tree well formed and acts as the removal from a map.
use beelzebub.Common.{
  ◌+◌, ◌-◌, ◌^◌, ◌<◌, ◌≡◌, refl, sym, ap, ◌∙◌, ◌≢◌, inl, inr, Option, none, some, Option-cases,
  Ordering, Ordering-cases, length, u64, arith,
}
use beelzebub.Handles.{not_found}
use beelzebub.Avl.Node.{Cell, Node, to_list}
use beelzebub.Avl.Edit.{Allocator, Comparison}
use beelzebub.Avl.Edit
use beelzebub.Avl.Heights.{IsBalanced}
use beelzebub.Avl.Heights.Edits.{remove-Shrunk, remove_missed}
use beelzebub.Avl.Sequence.{IsCut, find_first, erase}
use beelzebub.Avl.Contents.{by_payload, find-find_first, remove-erase}
use beelzebub.Avl.Order.{IsKey, IsSorted, erase-IsSorted, length-erase}
use beelzebub.Avl.Placement.{find_first-erase_other, find_first-erase_same}
use beelzebub.Avl.Tree.{AvlTree, Outcome, find, give_back, remove}
use beelzebub.Avl.Invariant.{by_payloads, contents, IsWellFormed, wf-IsCut, find-contents}

module _ {ℓ κ} {P : Type ℓ} {S : Type κ} where
  abbrev unchanged : AvlTree P S → Outcome P S
  unchanged tree = record { result = not_found; payload = none; tree = tree }

  module _ (alloc : Allocator S) (tree : AvlTree P S) where
    pub give_back-root :
        (m : Option (Cell P) × Node (Cell P)) → (give_back alloc tree m).tree.root ≡ m.1
    unfolding give_back
    give_back-root (none, r) = refl
    give_back-root (some c, r) = refl

    give_back-none :
        (m : Option (Cell P) × Node (Cell P))
        → m.0 ≡ none
        → m.1 ≡ tree.root
        → give_back alloc tree m ≡ unchanged tree
    unfolding give_back
    give_back-none (none, r) e q = ap (λ t. unchanged (record tree { root = t })) q
    give_back-none (some c, r) e q = cc

    pub give_back-some :
        (m : Option (Cell P) × Node (Cell P)) (c : Cell P)
        → m.0 ≡ some c
        → ((give_back alloc tree m).payload ≡ some c)
          × ((give_back alloc tree m).result ≡ (alloc.release c.address tree.cookie).0)
          × ((give_back alloc tree m).tree.cookie ≡ (alloc.release c.address tree.cookie).1)
          × ((give_back alloc tree m).tree.node_count ≡ u64 (tree.node_count + 2 ^ 64 - 1))
    unfolding give_back
    give_back-some (none, r) c e = cc
    give_back-some (some d, r) c e =
        let same : d ≡ c = ground arith in
        (
          e,
          ap (λ x. (alloc.release x.address tree.cookie).0) same,
          ap (λ x. (alloc.release x.address tree.cookie).1) same,
          refl,
        )

module _ {ℓ κ} {P : Type ℓ} {S : Type κ} (alloc : Allocator S) (compare : Comparison P P)
    (test : P → Ordering) (key : IsKey compare test) (tree : AvlTree P S)
    (wf : IsWellFormed compare tree) where
  cut : IsCut (by_payload test) (contents tree)
  cut = wf-IsCut wf key

  detached : Option (Cell P) × Node (Cell P)
  detached = Edit.remove test tree.root

  detached-find : detached.0 ≡ find alloc test tree
  unfolding detached find
  detached-find = (remove-erase test tree.root cut).0 ∙ sym (find-find_first test tree.root cut)

  remove-erased : contents (remove alloc test tree).tree ≡ erase (by_payload test) (contents tree)
  unfolding remove
  remove-erased =
      ap to_list (give_back-root alloc tree (Edit.remove test tree.root))
      ∙ (remove-erase test tree.root cut).1

  erased-IsSorted : IsSorted (by_payloads compare) (contents (remove alloc test tree).tree)
  erased-IsSorted =
      rw remove-erased
        (erase-IsSorted (by_payloads compare) (by_payload test) (contents tree) wf.sorted)

  found :
      (c : Cell P)
      → find alloc test tree ≡ some c
      → find_first (by_payload test) (contents tree) ≡ some c
  found c f = sym (find-contents alloc tree test key wf.sorted) ∙ f

  -- Without the key, nothing changes.
  remove_absent : find alloc test tree ≡ none → remove alloc test tree ≡ unchanged tree
  unfolding remove
  remove_absent f =
      give_back-none alloc tree _ (detached-find' f)
        (remove_missed test tree.root (detached-find' f))
    where
      detached-find' : find alloc test tree ≡ none → (Edit.remove test tree.root).0 ≡ none
      detached-find' f = unfold detached in detached-find ∙ f

  remove_present :
      (c : Cell P)
      → find alloc test tree ≡ some c
      → ((remove alloc test tree).payload ≡ some c)
        × ((remove alloc test tree).result ≡ (alloc.release c.address tree.cookie).0)
        × ((remove alloc test tree).tree.cookie ≡ (alloc.release c.address tree.cookie).1)
        × ((remove alloc test tree).tree.node_count ≡ u64 (tree.node_count + 2 ^ 64 - 1))
  unfolding remove
  remove_present c f = give_back-some alloc tree _ c (unfold detached in detached-find ∙ f)

  removed-IsBalanced : IsBalanced (remove alloc test tree).tree.root
  unfolding remove
  removed-IsBalanced =
      rw (give_back-root alloc tree (Edit.remove test tree.root))
        (remove-Shrunk test tree.root wf.balanced).balanced

  -- A removal by a key keeps a well-formed tree of fewer than 2^64 nodes balanced, sorted and
  -- rightly counted, whether it finds the key or not.
  pub remove-IsWellFormed :
      length (contents tree) < 2 ^ 64 → IsWellFormed compare (remove alloc test tree).tree
  remove-IsWellFormed fits = elim (Option-cases (find alloc test tree)) [
    | inl f ↦ rw (remove_absent f) wf
    | inr (c, f) ↦ record {
      balanced = removed-IsBalanced;
      sorted = erased-IsSorted;
      counted = omega (
        arith,
        (remove_present c f).3,
        wf.counted,
        ap length remove-erased,
        length-erase (by_payloads compare) (by_payload test) (contents tree) c (found c f),
      );
    }
  ]

  -- A removal by a key from a well-formed tree hands over the node that a search for the key finds
  -- and releases its address; without one it returns `NotFound`, and the allocator is not called.
  pub remove-outcome :
      let o = remove alloc test tree in
      let m = find alloc test tree in
      (o.payload ≡ m)
      × (o.result
          ≡ (elim m [ none ↦ not_found | some c ↦ (alloc.release c.address tree.cookie).0 ]))
      × (o.tree.cookie
          ≡ (elim m [ none ↦ tree.cookie | some c ↦ (alloc.release c.address tree.cookie).1 ]))
  remove-outcome = elim (Option-cases (find alloc test tree)) [
    | inl f ↦ rw (remove_absent f, f) (refl, refl, refl)
    | inr (c, f) ↦ let (pl, res, cookie, _) = remove_present c f in rw f (pl, res, cookie)
  ]

  -- After a removal by a key from a well-formed tree, a search finds nothing by any key that is
  -- equal to the payload removed, and by every other key what it found before.
  pub remove-find :
      (k : P → Ordering)
      → IsKey compare k
      → find alloc k (remove alloc test tree).tree ≡ (elim (find alloc test tree) [
        | none ↦ find alloc k tree
        | some c ↦ elim (k c.payload) [ Ordering.eq ↦ none | _ ↦ find alloc k tree ]
      ])
  remove-find k kk = elim (Option-cases (find alloc test tree)) [
    | inl f ↦ rw (remove_absent f, f)
    | inr (c, f) ↦
        let same = find-contents alloc tree k kk wf.sorted in
        let other : k c.payload ≢ Ordering.eq
            → find alloc k (remove alloc test tree).tree ≡ find alloc k tree =
          λ n.
            after k kk
            ∙ find_first-erase_other (by_payload test) (by_payload k) c (contents tree) (found c f)
                (wf-IsCut wf kk) n
            ∙ sym same in
        elim (Ordering-cases (k c.payload)) [
          | inl e ↦ rw (f, e) (other (λ q. ground arith))
          | inr (inl e) ↦
              rw (f, e)
                (after k kk
                  ∙ find_first-erase_same (by_payload test) (by_payload k) c (contents tree)
                      (found c f) (wf-IsCut wf kk) e)
          | inr (inr e) ↦ rw (f, e) (other (λ q. ground arith))
        ]
  ]
    where
      after :
          (k : P → Ordering)
          → IsKey compare k
          → find alloc k (remove alloc test tree).tree
            ≡ find_first (by_payload k) (erase (by_payload test) (contents tree))
      after k kk =
          find-contents alloc _ k kk erased-IsSorted ∙ ap (find_first (by_payload k)) remove-erased
