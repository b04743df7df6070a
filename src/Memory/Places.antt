-- ===== src/Memory/Places.antt =====
-- Reads and writes through a `MemoryRegion *` of beelzebub/src/memory/vas.cpp at a known place of the
-- contents of a tree whose nodes have different addresses.
use beelzebub.Common.{
  ℕ, ◌≡◌, refl, sym, ap, ap₂, ◌∙◌, ◌≢◌, List, [], ◌∷◌, ◌++◌, map, map-append, some, ◌==◌, ==_iff,
  Bool-cases, true, inl, inr, All, IsAbsent, IsDistinct,
}
use beelzebub.Avl.Node.{Cell}
use beelzebub.Avl.Tree.{AvlTree}
use beelzebub.Avl.Invariant.{contents}
use beelzebub.Memory.Regions.{MemoryRegion}
use beelzebub.Memory.Pointers.{lookup, at, load, modify, to_list-map_nodes}

abbrev pub addresses : List (Cell MemoryRegion) → List ℕ
addresses cs = map (λ c. c.address) cs

-- A node with `f` written to its region.
abbrev pub put : (MemoryRegion → MemoryRegion) → Cell MemoryRegion → Cell MemoryRegion
put f c = record c { payload = f c.payload }

map-absent :
    (a : ℕ) (f : MemoryRegion → MemoryRegion) (xs : List (Cell MemoryRegion))
    → IsAbsent a (addresses xs)
    → map (at a f) xs ≡ xs
map-absent a f [] h = refl
map-absent a f (x ∷ xs) h =
    ap₂ ◌∷◌
      (elim (Bool-cases (x.address == a)) [
        | inl e ↦ absurd (h.0 ((==_iff x.address a).0 e))
        | inr e ↦ rw e refl
      ])
      (map-absent a f xs h.1)

at_self : (f : MemoryRegion → MemoryRegion) (c : Cell MemoryRegion) → at c.address f c ≡ put f c
at_self f c =
    let e : (c.address == c.address) ≡ true = (==_iff c.address c.address).1 refl in rw e refl

lookup-absent :
    (a : ℕ) (xs ys : List (Cell MemoryRegion))
    → IsAbsent a (addresses xs)
    → lookup a (xs ++ ys) ≡ lookup a ys
unfolding lookup
lookup-absent a [] ys h = refl
lookup-absent a (x ∷ xs) ys h = elim (Bool-cases (x.address == a)) [
  | inl e ↦ absurd (h.0 ((==_iff x.address a).0 e))
  | inr e ↦ rw (e, lookup) (lookup-absent a xs ys h.1)
]

-- In a list without repetitions an element occurs neither before nor behind its place.
pub IsAbsent-before :
    (xs : List (Cell MemoryRegion)) (c : Cell MemoryRegion) (ys : List (Cell MemoryRegion))
    → IsDistinct (addresses (xs ++ c ∷ ys))
    → IsAbsent c.address (addresses xs)
IsAbsent-before [] c ys d = tt
IsAbsent-before (x ∷ xs) c ys d = ((λ e. apart xs d.0 (sym e)), IsAbsent-before xs c ys d.1)
  where
    apart :
        {a : ℕ} (xs : List (Cell MemoryRegion))
        → IsAbsent a (addresses (xs ++ c ∷ ys))
        → c.address ≢ a
    apart [] h = h.0
    apart (x ∷ xs) h = apart xs h.1

pub IsAbsent-behind :
    (xs : List (Cell MemoryRegion)) (c : Cell MemoryRegion) (ys : List (Cell MemoryRegion))
    → IsDistinct (addresses (xs ++ c ∷ ys))
    → IsAbsent c.address (addresses ys)
IsAbsent-behind [] c ys d = d.0
IsAbsent-behind (x ∷ xs) c ys d = IsAbsent-behind xs c ys d.1

pub addresses-put :
    (f : MemoryRegion → MemoryRegion) (xs : List (Cell MemoryRegion)) (c : Cell MemoryRegion)
    (ys : List (Cell MemoryRegion))
    → addresses (xs ++ put f c ∷ ys) ≡ addresses (xs ++ c ∷ ys)
addresses-put f [] c ys = refl
addresses-put f (x ∷ xs) c ys = ap (◌∷◌ x.address) (addresses-put f xs c ys)

pub insert-All {κ} :
    (P : ℕ → Type κ) (xs : List (Cell MemoryRegion)) (c : Cell MemoryRegion)
    (ys : List (Cell MemoryRegion))
    → P c.address
    → All P (addresses (xs ++ ys))
    → All P (addresses (xs ++ c ∷ ys))
insert-All P [] c ys p h = (p, h)
insert-All P (x ∷ xs) c ys p h = (h.0, insert-All _ xs c ys p h.1)

pub remove-All {κ} :
    (P : ℕ → Type κ) (xs : List (Cell MemoryRegion)) (c : Cell MemoryRegion)
    (ys : List (Cell MemoryRegion))
    → All P (addresses (xs ++ c ∷ ys))
    → All P (addresses (xs ++ ys))
remove-All P [] c ys h = h.1
remove-All P (x ∷ xs) c ys h = (h.0, remove-All _ xs c ys h.1)

pub member-All {κ} :
    (P : ℕ → Type κ) (xs : List (Cell MemoryRegion)) (c : Cell MemoryRegion)
    (ys : List (Cell MemoryRegion))
    → All P (addresses (xs ++ c ∷ ys))
    → P c.address
member-All P [] c ys h = h.0
member-All P (x ∷ xs) c ys h = member-All _ xs c ys h.1

pub insert-IsDistinct :
    (xs : List (Cell MemoryRegion)) (c : Cell MemoryRegion) (ys : List (Cell MemoryRegion))
    → IsDistinct (addresses (xs ++ ys))
    → IsAbsent c.address (addresses (xs ++ ys))
    → IsDistinct (addresses (xs ++ c ∷ ys))
insert-IsDistinct [] c ys d n = (n, d)
insert-IsDistinct (x ∷ xs) c ys d n =
    (insert-All _ xs c ys (λ e. n.0 (sym e)) d.0, insert-IsDistinct xs c ys d.1 n.1)

pub remove-IsDistinct :
    (xs : List (Cell MemoryRegion)) (c : Cell MemoryRegion) (ys : List (Cell MemoryRegion))
    → IsDistinct (addresses (xs ++ c ∷ ys))
    → IsDistinct (addresses (xs ++ ys))
remove-IsDistinct [] c ys d = d.1
remove-IsDistinct (x ∷ xs) c ys d = (remove-All _ xs c ys d.0, remove-IsDistinct xs c ys d.1)

pub remove-IsAbsent :
    (xs : List (Cell MemoryRegion)) (c : Cell MemoryRegion) (ys : List (Cell MemoryRegion))
    → IsDistinct (addresses (xs ++ c ∷ ys))
    → IsAbsent c.address (addresses (xs ++ ys))
remove-IsAbsent [] c ys d = d.0
remove-IsAbsent (x ∷ xs) c ys d =
    ((λ e. member-All _ xs c ys d.0 (sym e)), remove-IsAbsent xs c ys d.1)

module _ {κ} {S : Type κ} (tree : AvlTree MemoryRegion S) (xs : List (Cell MemoryRegion))
    (c : Cell MemoryRegion) (ys : List (Cell MemoryRegion)) (q : contents tree ≡ xs ++ c ∷ ys)
    (d : IsDistinct (addresses (xs ++ c ∷ ys))) where
  pub load_place : load c.address tree ≡ some c.payload
  unfolding load lookup
  load_place =
      let e : (c.address == c.address) ≡ true = (==_iff c.address c.address).1 refl in
      ap (lookup c.address) q
      ∙ lookup-absent c.address xs (c ∷ ys) (IsAbsent-before xs c ys d)
      ∙ rw e refl

  pub modify_place :
      (f : MemoryRegion → MemoryRegion) → contents (modify c.address f tree) ≡ xs ++ put f c ∷ ys
  unfolding modify
  modify_place f =
      to_list-map_nodes (at c.address f) tree.root
      ∙ ap (map (at c.address f)) q
      ∙ map-append (at c.address f) xs (c ∷ ys)
      ∙ ap₂ ◌++◌ (map-absent c.address f xs (IsAbsent-before xs c ys d))
          (ap₂ ◌∷◌ (at_self f c) (map-absent c.address f ys (IsAbsent-behind xs c ys d)))
