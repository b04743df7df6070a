-- ===== src/Common/Lists.antt =====
-- Lists measured and indexed by native numbers, and predicates on all their elements.
use Prim.Native.Nat.{ℕ, zero, suc, ◌+◌}
use mathlib.Core.Path.{◌≡◌, refl, ap, sym}
use mathlib.Core.Logic.{◌≢◌}
use mathlib.Core.List.{List, [], ◌∷◌, ◌++◌}
use native.Mathlib.Omega.{arith}

module _ {ℓ} {A : Type ℓ} where
  abbrev pub length : List A → ℕ
  length [] = 0
  length (x ∷ xs) = suc (length xs)

  pub length-append : (xs ys : List A) → length (xs ++ ys) ≡ length xs + length ys
  length-append [] ys = omega arith
  length-append (x ∷ xs) ys = omega (arith, length-append xs ys)

abbrev pub All {ℓ κ} : {A : Type ℓ} → (A → Type κ) → List A → Type κ
All P [] = Unit
All P (x ∷ xs) = P x × All P xs

module _ {ℓ κ} {A : Type ℓ} (P : A → Type κ) where
  pub All-append : (xs ys : List A) → All P xs → All P ys → All P (xs ++ ys)
  All-append [] ys hx hy = hy
  All-append (x ∷ xs) ys hx hy = (hx.0, All-append xs ys hx.1 hy)

  pub append-All_left : (xs ys : List A) → All P (xs ++ ys) → All P xs
  append-All_left [] ys h = tt
  append-All_left (x ∷ xs) ys h = (h.0, append-All_left xs ys h.1)

  pub append-All_right : (xs ys : List A) → All P (xs ++ ys) → All P ys
  append-All_right [] ys h = h
  append-All_right (x ∷ xs) ys h = append-All_right xs ys h.1

pub All-mono {ℓ κ μ} :
    {A : Type ℓ} {P : A → Type κ} {Q : A → Type μ} (xs : List A)
    → ((x : A) → P x → Q x)
    → All P xs
    → All Q xs
All-mono [] f h = tt
All-mono (x ∷ xs) f h = (f x h.0, All-mono xs f h.1)

abbrev pub take {ℓ} : {A : Type ℓ} → ℕ → List A → List A
take zero xs = []
take (suc n) [] = []
take (suc n) (x ∷ xs) = x ∷ take n xs

pub take-take-suc {ℓ} : {A : Type ℓ} (n : ℕ) (xs : List A) → take n (take (suc n) xs) ≡ take n xs
take-take-suc zero xs = refl
take-take-suc (suc n) [] = refl
take-take-suc (suc n) (x ∷ xs) = ap (◌∷◌ x) (take-take-suc n xs)

abbrev pub IsAbsent {ℓ} : {A : Type ℓ} → A → List A → Type ℓ
IsAbsent i xs = All (λ x. x ≢ i) xs

abbrev pub IsDistinct {ℓ} : {A : Type ℓ} → List A → Type ℓ
IsDistinct [] = Unit
IsDistinct (x ∷ xs) = IsAbsent x xs × IsDistinct xs

pub IsDistinct-append {ℓ} :
    {A : Type ℓ} (i : A) (xs : List A) → IsDistinct xs → IsAbsent i xs → IsDistinct (xs ++ i ∷ [])
IsDistinct-append i [] d a = (tt, tt)
IsDistinct-append i (x ∷ xs) d a =
    (All-append _ xs (i ∷ []) d.0 ((λ q. a.0 (sym q)), tt), IsDistinct-append i xs d.1 a.1)

-- What holds of all elements but one, in a list without that one.
pub All-away {ℓ κ μ} :
    {A : Type ℓ} {P : A → Type κ} {Q : A → Type μ} (i : A) (xs : List A)
    → IsAbsent i xs
    → ((x : A) → x ≢ i → P x → Q x)
    → All P xs
    → All Q xs
All-away i [] n f h = tt
All-away i (x ∷ xs) n f h = (f x n.0 h.0, All-away i xs n.1 f h.1)
