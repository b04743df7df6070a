-- ===== src/Avl/Placement.antt =====
-- What a search finds after an element has been placed in, or erased from, a sorted sequence.
use beelzebub.Common.{
  ◌≡◌, refl, sym, ap, ◌∙◌, ◌≢◌, inl, inr, List, [], ◌∷◌, ◌++◌, append-nil, none, some, Ordering,
  Ordering-cases, All, arith,
}
use beelzebub.Avl.Sequence.{
  IsGreater, IsCut, IsCut-right, IsCut-IsLess, find_first, place, erase, find_first-less,
  find_first-greater, find_first_past, find_first_here,
}

-- A sequence that has no element equal to the key, and the place of the key in it.
record Gap {ℓ} {A : Type ℓ} (test : A → Ordering) (new : A) (xs : List A) : Type ℓ where
  smaller : List A
  larger : List A
  whole : xs ≡ smaller ++ larger
  placed : place test new xs ≡ smaller ++ new ∷ larger

module _ {ℓ} {A : Type ℓ} (test : A → Ordering) (new : A) where
  gap : (xs : List A) → IsCut test xs → find_first test xs ≡ none → Gap test new xs
  unfolding find_first place
  gap [] k f = record { smaller = []; larger = []; whole = refl; placed = refl }
  gap (x ∷ xs) k f = elim (Ordering-cases (test x)) [
    | inl e ↦
        let g = gap xs (k.0 e) (rw (e, find_first) at f) in
        record {
          smaller = x ∷ g.smaller;
          larger = g.larger;
          whole = ap (◌∷◌ x) g.whole;
          placed = rw (e, place) (ap (◌∷◌ x) g.placed);
        }
    | inr (inl e) ↦ absurd (ground arith)
    | inr (inr e) ↦ record { smaller = []; larger = x ∷ xs; whole = refl; placed = rw (e, place) }
  ]

module _ {ℓ} {A : Type ℓ} (key : A → Ordering) where
  find_first-append_greater :
      (xs ys : List A) → All (IsGreater key) ys → find_first key (xs ++ ys) ≡ find_first key xs
  find_first-append_greater xs [] h = ap (find_first key) (append-nil xs)
  find_first-append_greater xs (y ∷ ys) h = find_first-greater key xs y ys h.0

  -- An element makes no difference to the search for a key that is not its own.
  find_first_skip :
      (xs : List A) (c : A) (ys : List A)
      → IsCut key (xs ++ c ∷ ys)
      → key c ≢ Ordering.eq
      → find_first key (xs ++ c ∷ ys) ≡ find_first key (xs ++ ys)
  find_first_skip xs c ys k n = elim (Ordering-cases (key c)) [
    | inl e ↦
        find_first_past key xs c ys k e
        ∙ sym (find_first-less key xs ys (IsCut-IsLess key xs c ys k (λ q. ground arith)))
    | inr (inl e) ↦ absurd (n e)
    | inr (inr e) ↦
        find_first-greater key xs c ys e
        ∙ sym (
            find_first-append_greater xs ys ((IsCut-right key xs (c ∷ ys) k).1 (λ q. ground arith)))
  ]

module _ {ℓ} {A : Type ℓ} (test key : A → Ordering) (new : A) (xs : List A) (k : IsCut test xs)
    (f : find_first test xs ≡ none) (k' : IsCut key (place test new xs)) where
  open (gap test new xs k f) use {smaller, larger, whole, placed}

  pub find_first-place_self : key new ≡ Ordering.eq → find_first key (place test new xs) ≡ some new
  find_first-place_self e =
      ap (find_first key) placed ∙ find_first_here key smaller new larger (rw placed at k') e

  pub find_first-place_other :
      key new ≢ Ordering.eq → find_first key (place test new xs) ≡ find_first key xs
  find_first-place_other n =
      ap (find_first key) placed
      ∙ find_first_skip key smaller new larger (rw placed at k') n
      ∙ ap (find_first key) (sym whole)

-- Where the search finds `c`, and what is left without it.
record Hit {ℓ} {A : Type ℓ} (test : A → Ordering) (c : A) (xs : List A) : Type ℓ where
  smaller : List A
  larger : List A
  whole : xs ≡ smaller ++ c ∷ larger
  erased : erase test xs ≡ smaller ++ larger

hit {ℓ} :
    {A : Type ℓ} (test : A → Ordering) (c : A) (xs : List A)
    → find_first test xs ≡ some c
    → Hit test c xs
unfolding find_first erase
hit test c [] f = cc
hit test c (x ∷ xs) f = elim (Ordering-cases (test x)) [
  | inl e ↦
      let g = hit test c xs (rw (e, find_first) at f) in
      record {
        smaller = x ∷ g.smaller;
        larger = g.larger;
        whole = ap (◌∷◌ x) g.whole;
        erased = rw (e, erase) (ap (◌∷◌ x) g.erased);
      }
  | inr (inl e) ↦ record {
    smaller = [];
    larger = xs;
    whole = let same : x ≡ c = ground arith in ap (λ y. y ∷ xs) same;
    erased = rw (e, erase);
  }
  | inr (inr e) ↦ absurd (ground arith)
]

pub find_first-erase_other {ℓ} :
    {A : Type ℓ} (test key : A → Ordering) (c : A) (xs : List A)
    → find_first test xs ≡ some c
    → IsCut key xs
    → key c ≢ Ordering.eq
    → find_first key (erase test xs) ≡ find_first key xs
find_first-erase_other test key c xs f k n =
    let g = hit test c xs f in
    ap (find_first key) g.erased
    ∙ sym (find_first_skip key g.smaller c g.larger (rw g.whole at k) n)
    ∙ ap (find_first key) (sym g.whole)

none_above {ℓ} :
    {A : Type ℓ} (key : A → Ordering) (xs : List A)
    → All (IsGreater key) xs
    → find_first key xs ≡ none
unfolding find_first
none_above key [] h = refl
none_above key (x ∷ xs) h = rw (h.0, find_first)

-- Another key of the element erased.
pub find_first-erase_same {ℓ} :
    {A : Type ℓ} (test key : A → Ordering) (c : A) (xs : List A)
    → find_first test xs ≡ some c
    → IsCut key xs
    → key c ≡ Ordering.eq
    → find_first key (erase test xs) ≡ none
find_first-erase_same test key c xs f k e =
    let g = hit test c xs f in
    let cut : IsCut key (g.smaller ++ c ∷ g.larger) = rw g.whole at k in
    let before = IsCut-IsLess key g.smaller c g.larger cut (λ q. ground arith) in
    let after = (IsCut-right key g.smaller (c ∷ g.larger) cut).1 (λ q. ground arith) in
    ap (find_first key) g.erased
    ∙ find_first-less key g.smaller g.larger before
    ∙ none_above key g.larger after
