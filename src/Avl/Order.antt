-- ===== src/Avl/Order.antt =====
-- Sorted sequences, and what `Compare` has to satisfy for the trees of avl.tree.hpp to be searchable.
use beelzebub.Common.{
  ◌+◌, ◌≡◌, ◌≢◌, inl, inr, List, [], ◌∷◌, none, some, Ordering, Ordering-cases, All, length, arith,
}
use beelzebub.Avl.Sequence.{IsGreater, IsCut, find_first, place, erase}

module _ {ℓ} {A : Type ℓ} (compare : A → A → Ordering) where
  -- `test` finds the place of a key among ordered elements.
  pub record IsKey (test : A → Ordering) : Type ℓ where
    pub below : (p q : A) → compare p q ≡ Ordering.lt → test q ≢ Ordering.gt → test p ≡ Ordering.lt
    pub above : (p q : A) → compare p q ≡ Ordering.lt → test p ≢ Ordering.lt → test q ≡ Ordering.gt

  pub record IsOrder : Type ℓ where
    pub flip_lt : (p q : A) → compare p q ≡ Ordering.lt → compare q p ≡ Ordering.gt
    pub flip_gt : (p q : A) → compare p q ≡ Ordering.gt → compare q p ≡ Ordering.lt
    pub is_key : (p : A) → IsKey (λ q. compare q p)

  abbrev pub IsSorted : List A → Type 0
  IsSorted [] = Unit {0}
  IsSorted (x ∷ xs) = All (λ y. compare x y ≡ Ordering.lt) xs × IsSorted xs

  module _ {test : A → Ordering} (key : IsKey test) where
    after-IsGreater :
        (x : A) (xs : List A)
        → test x ≢ Ordering.lt
        → All (λ y. compare x y ≡ Ordering.lt) xs
        → All (IsGreater test) xs
    after-IsGreater x [] n h = tt
    after-IsGreater x (y ∷ xs) n h = (key.above x y h.0 n, after-IsGreater x xs n h.1)

    pub IsSorted-IsCut : (xs : List A) → IsSorted xs → IsCut test xs
    IsSorted-IsCut [] h = tt
    IsSorted-IsCut (x ∷ xs) h = ((λ _. IsSorted-IsCut xs h.1), (λ n. after-IsGreater x xs n h.0))

  module _ (test : A → Ordering) where
    pub erase-All {κ} : (P : A → Type κ) (xs : List A) → All P xs → All P (erase test xs)
    unfolding erase
    erase-All P [] h = tt
    erase-All P (x ∷ xs) h = elim (Ordering-cases (test x)) [
      | inl e ↦ rw (e, erase) (h.0, erase-All P xs h.1)
      | inr (inl e) ↦ rw (e, erase) h.1
      | inr (inr e) ↦ rw (e, erase) h
    ]

    pub erase-IsSorted : (xs : List A) → IsSorted xs → IsSorted (erase test xs)
    unfolding erase
    erase-IsSorted [] h = tt
    erase-IsSorted (x ∷ xs) h = elim (Ordering-cases (test x)) [
      | inl e ↦ rw (e, erase) (erase-All _ xs h.0, erase-IsSorted xs h.1)
      | inr (inl e) ↦ rw (e, erase) h.1
      | inr (inr e) ↦ rw (e, erase) h
    ]

    pub place-All {κ} :
        (P : A → Type κ) (new : A) (xs : List A) → P new → All P xs → All P (place test new xs)
    unfolding place
    place-All P new [] n h = (n, tt)
    place-All P new (x ∷ xs) n h = elim (Ordering-cases (test x)) [
      | inl e ↦ rw (e, place) (h.0, place-All P new xs n h.1)
      | inr (inl e) ↦ rw (e, place) h
      | inr (inr e) ↦ rw (e, place) (n, h)
    ]

    module _ (new : A) (before : (y : A) → test y ≡ Ordering.lt → compare y new ≡ Ordering.lt)
        (after : (y : A) → test y ≡ Ordering.gt → compare new y ≡ Ordering.lt) where
      before_greater :
          (xs : List A) → All (IsGreater test) xs → All (λ y. compare new y ≡ Ordering.lt) xs
      before_greater [] h = tt
      before_greater (x ∷ xs) h = (after x h.0, before_greater xs h.1)

      pub place-IsSorted :
          (xs : List A) → IsCut test xs → IsSorted xs → IsSorted (place test new xs)
      unfolding place
      place-IsSorted [] k h = (tt, tt)
      place-IsSorted (x ∷ xs) k h = elim (Ordering-cases (test x)) [
        | inl e ↦ rw (e, place) (place-All _ new xs (before x e) h.0, place-IsSorted xs (k.0 e) h.1)
        | inr (inl e) ↦ rw (e, place) h
        | inr (inr e) ↦ rw (e, place) ((after x e, before_greater xs (k.1 (λ q. ground arith))), h)
      ]

    pub length-place :
        (new : A) (xs : List A)
        → IsCut test xs
        → find_first test xs ≡ none
        → length (place test new xs) ≡ length xs + 1
    unfolding place find_first
    length-place new [] k f = omega arith
    length-place new (x ∷ xs) k f = elim (Ordering-cases (test x)) [
      | inl e ↦ rw (e, place) (omega (arith, length-place new xs (k.0 e) (rw (e, find_first) at f)))
      | inr (inl e) ↦ absurd (ground arith)
      | inr (inr e) ↦ rw (e, place) (omega arith)
    ]

    pub length-erase :
        (xs : List A) (a : A) → find_first test xs ≡ some a → length xs ≡ length (erase test xs) + 1
    unfolding erase find_first
    length-erase [] a f = cc
    length-erase (x ∷ xs) a f = elim (Ordering-cases (test x)) [
      | inl e ↦ rw (e, erase) (omega (arith, length-erase xs a (rw (e, find_first) at f)))
      | inr (inl e) ↦ rw (e, erase) (omega arith)
      | inr (inr e) ↦ absurd (ground arith)
    ]
