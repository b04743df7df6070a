-- ===== src/Avl/Sequence.antt =====
-- The view of an AVL tree that its clients have: a sorted sequence, searched by a comparison whose
-- results fall into `lt`, then one `eq` at most, then `gt`.
use beelzebub.Common.{
  ◌≡◌, refl, ap, ◌∙◌, ◌≢◌, List, [], ◌∷◌, ◌++◌, Option, none, some, Ordering, All, append-All_left,
  append-All_right, Ordering-cases, inl, inr, arith,
}

module _ {ℓ} {A : Type ℓ} (test : A → Ordering) where
  abbrev pub IsLess : A → Type 0
  IsLess x = test x ≡ Ordering.lt

  abbrev pub IsGreater : A → Type 0
  IsGreater x = test x ≡ Ordering.gt

  abbrev pub IsCut : List A → Type 0
  IsCut [] = Unit {0}
  IsCut (x ∷ xs) = (IsLess x → IsCut xs) × (test x ≢ Ordering.lt → All IsGreater xs)

  unfoldable pub find_first : List A → Option A
  find_first [] = none
  find_first (x ∷ xs) = elim (test x) [
    | Ordering.lt ↦ find_first xs
    | Ordering.eq ↦ some x
    | Ordering.gt ↦ none
  ]

  -- `new` goes before the first element that is not less.
  unfoldable pub place : A → List A → List A
  place new [] = new ∷ []
  place new (x ∷ xs) = elim (test x) [
    | Ordering.lt ↦ x ∷ place new xs
    | Ordering.eq ↦ x ∷ xs
    | Ordering.gt ↦ new ∷ x ∷ xs
  ]

  unfoldable pub erase : List A → List A
  erase [] = []
  erase (x ∷ xs) = elim (test x) [
    | Ordering.lt ↦ x ∷ erase xs
    | Ordering.eq ↦ xs
    | Ordering.gt ↦ x ∷ xs
  ]

  greater-IsCut : (xs : List A) → All IsGreater xs → IsCut xs
  greater-IsCut [] h = tt
  greater-IsCut (x ∷ xs) h = ((λ e. greater-IsCut xs h.1), (λ _. h.1))

  pub IsCut-left : (xs ys : List A) → IsCut (xs ++ ys) → IsCut xs
  IsCut-left [] ys h = tt
  IsCut-left (x ∷ xs) ys h =
      ((λ e. IsCut-left xs ys (h.0 e)), (λ n. append-All_left IsGreater xs ys (h.1 n)))

  pub IsCut-right : (xs ys : List A) → IsCut (xs ++ ys) → IsCut ys
  IsCut-right [] ys h = h
  IsCut-right (x ∷ xs) ys h = elim (Ordering-cases (test x)) [
    | inl e ↦ IsCut-right xs ys (h.0 e)
    | inr (inl e) ↦ greater-IsCut ys (append-All_right IsGreater xs ys (h.1 (λ q. ground arith)))
    | inr (inr e) ↦ greater-IsCut ys (append-All_right IsGreater xs ys (h.1 (λ q. ground arith)))
  ]

  -- Before an element that is not greater, all are less.
  pub IsCut-IsLess :
      (xs : List A) (c : A) (ys : List A)
      → IsCut (xs ++ c ∷ ys)
      → test c ≢ Ordering.gt
      → All IsLess xs
  IsCut-IsLess [] c ys h n = tt
  IsCut-IsLess (x ∷ xs) c ys h n = elim (Ordering-cases (test x)) [
    | inl e ↦ (e, IsCut-IsLess xs c ys (h.0 e) n)
    | inr (inl e) ↦
        absurd (n ((append-All_right IsGreater xs (c ∷ ys) (h.1 (λ q. ground arith))).0))
    | inr (inr e) ↦
        absurd (n ((append-All_right IsGreater xs (c ∷ ys) (h.1 (λ q. ground arith))).0))
  ]

  pub find_first-less : (xs ys : List A) → All IsLess xs → find_first (xs ++ ys) ≡ find_first ys
  unfolding find_first
  find_first-less [] ys h = refl
  find_first-less (x ∷ xs) ys h = rw (h.0, find_first) (find_first-less xs ys h.1)

  pub find_first-greater :
      (xs : List A) (c : A) (ys : List A) → IsGreater c → find_first (xs ++ c ∷ ys) ≡ find_first xs
  unfolding find_first
  find_first-greater [] c ys h = rw (h, find_first)
  find_first-greater (x ∷ xs) c ys h = ground (arith, find_first-greater xs c ys h)

  pub place-less :
      (new : A) (xs ys : List A) → All IsLess xs → place new (xs ++ ys) ≡ xs ++ place new ys
  unfolding place
  place-less new [] ys h = refl
  place-less new (x ∷ xs) ys h = rw (h.0, place) (ap (◌∷◌ x) (place-less new xs ys h.1))

  pub place-greater :
      (new : A) (xs : List A) (c : A) (ys : List A)
      → IsGreater c
      → place new (xs ++ c ∷ ys) ≡ place new xs ++ c ∷ ys
  unfolding place
  place-greater new [] c ys h = rw (h, place)
  place-greater new (x ∷ xs) c ys h = ground (arith, place-greater new xs c ys h)

  pub erase-less : (xs ys : List A) → All IsLess xs → erase (xs ++ ys) ≡ xs ++ erase ys
  unfolding erase
  erase-less [] ys h = refl
  erase-less (x ∷ xs) ys h = rw (h.0, erase) (ap (◌∷◌ x) (erase-less xs ys h.1))

  pub erase-greater :
      (xs : List A) (c : A) (ys : List A) → IsGreater c → erase (xs ++ c ∷ ys) ≡ erase xs ++ c ∷ ys
  unfolding erase
  erase-greater [] c ys h = rw (h, erase)
  erase-greater (x ∷ xs) c ys h = ground (arith, erase-greater xs c ys h)

  -- At an element `c` of a cut sequence that is not greater, what stands before it is passed over.
  module _ (xs : List A) (c : A) (ys : List A) (cut : IsCut (xs ++ c ∷ ys)) where
    module _ (e : IsLess c) where
      passed : All IsLess xs
      passed = IsCut-IsLess xs c ys cut (λ q. ground arith)

      pub find_first_past : find_first (xs ++ c ∷ ys) ≡ find_first ys
      find_first_past = find_first-less xs (c ∷ ys) passed ∙ unfold find_first in rw (e, find_first)

      pub place_past : (new : A) → place new (xs ++ c ∷ ys) ≡ xs ++ c ∷ place new ys
      place_past new = place-less new xs (c ∷ ys) passed ∙ unfold place in rw (e, place)

      pub erase_past : erase (xs ++ c ∷ ys) ≡ xs ++ c ∷ erase ys
      erase_past = erase-less xs (c ∷ ys) passed ∙ unfold erase in rw (e, erase)

    module _ (e : test c ≡ Ordering.eq) where
      reached : All IsLess xs
      reached = IsCut-IsLess xs c ys cut (λ q. ground arith)

      pub find_first_here : find_first (xs ++ c ∷ ys) ≡ some c
      find_first_here =
          find_first-less xs (c ∷ ys) reached ∙ unfold find_first in rw (e, find_first)

      pub erase_here : erase (xs ++ c ∷ ys) ≡ xs ++ ys
      erase_here = erase-less xs (c ∷ ys) reached ∙ unfold erase in rw (e, erase)
