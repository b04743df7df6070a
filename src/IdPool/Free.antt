-- ===== src/IdPool/Free.antt =====
-- The queue of free identifiers in the entries of id.pool.hpp, as a list, and the invariant.
use beelzebub.Common.{
  IsAbsent, IsDistinct, ℕ, ◌*◌, ◌^◌, ◌<◌, ◌≡◌, sym, ◌∙◌, ◌≢◌, List, [], ◌∷◌, ◌++◌, All, arith,
}
use beelzebub.IdPool.{IdPool, no_next, store, busy}

-- From the first identifier each entry holds the next one, and the last is the tail.
abbrev pub IsLinked : (ℕ → ℕ) → ℕ → ℕ → List ℕ → Type 0
IsLinked e tail x [] = (e x ≡ no_next) × (tail ≡ x)
IsLinked e tail x (y ∷ ys) = (e x ≡ y * 2) × IsLinked e tail y ys

abbrev pub IsQueue : (ℕ → ℕ) → ℕ → ℕ → List ℕ → Type 0
IsQueue e head tail [] = (head ≡ no_next) × (tail ≡ no_next)
IsQueue e head tail (x ∷ xs) = (head ≡ x) × IsLinked e tail x xs

-- A pool whose free identifiers are `free`, in the order in which they will be handed out; all the
-- others are busy. Its words fit in the address space.
pub record IsPool (p : IdPool) (free : List ℕ) : Type 0 where
  pub small : p.capacity < 2 ^ 61
  pub queue : IsQueue p.entries p.head p.tail free
  pub distinct : IsDistinct free
  pub within : All (λ x. x < p.capacity) free
  pub taken : (i : ℕ) → i < p.capacity → IsAbsent i free → busy (p.entries i) ≡ 1

-- A write to an entry outside the queue leaves the queue alone.
pub store-IsLinked :
    (e : ℕ → ℕ) (tail x i v : ℕ) (xs : List ℕ)
    → IsLinked e tail x xs
    → x ≢ i
    → IsAbsent i xs
    → IsLinked (store e i v) tail x xs
store-IsLinked e tail x i v [] l n a = ground arith
store-IsLinked e tail x i v (y ∷ ys) l n a =
    (ground arith, store-IsLinked e tail y i v ys l.1 a.0 a.1)

-- The entry of a free identifier is not marked busy.
pub linked-busy :
    (e : ℕ → ℕ) (tail x : ℕ) (xs : List ℕ)
    → IsLinked e tail x xs
    → All (λ y. busy (e y) ≡ 0) (x ∷ xs)
linked-busy e tail x [] l = (rw l.0, tt)
linked-busy e tail x (y ∷ ys) l = (rw l.0 (omega arith), linked-busy e tail y ys l.1)

pub busy-IsAbsent :
    (e : ℕ → ℕ) (i : ℕ) (xs : List ℕ)
    → All (λ y. busy (e y) ≡ 0) xs
    → busy (e i) ≢ 0
    → IsAbsent i xs
busy-IsAbsent e i [] h n = tt
busy-IsAbsent e i (x ∷ xs) h n = ((λ q. n (rw q at h.0)), busy-IsAbsent e i xs h.1 n)

-- The tail is one of the linked identifiers.
pub tail-ne :
    (e : ℕ → ℕ) (tail x i : ℕ) (xs : List ℕ) → IsLinked e tail x xs → IsAbsent i (x ∷ xs) → tail ≢ i
tail-ne e tail x i [] l a q = a.0 (sym l.1 ∙ q)
tail-ne e tail x i (y ∷ ys) l a q = tail-ne e tail y i ys l.1 a.1 q

pub tail-lt :
    (e : ℕ → ℕ) (tail x n : ℕ) (xs : List ℕ)
    → IsLinked e tail x xs
    → All (λ y. y < n) (x ∷ xs)
    → tail < n
tail-lt e tail x n [] l a = rw l.1 a.0
tail-lt e tail x n (y ∷ ys) l a = tail-lt e tail y n ys l.1 a.1

pub absent-sym : (x i : ℕ) → x ≢ i → i ≢ x
absent-sym x i n q = n (sym q)

-- Linking one more identifier behind the last.
pub IsLinked-append :
    (e : ℕ → ℕ) (tail x i : ℕ) (xs : List ℕ)
    → IsLinked e tail x xs
    → IsDistinct (x ∷ xs)
    → x ≢ i
    → IsAbsent i xs
    → e i ≡ no_next
    → IsLinked (store e tail (i * 2)) i x (xs ++ i ∷ [])
IsLinked-append e tail x i [] l d n a z = ground arith
IsLinked-append e tail x i (y ∷ ys) l d n a z =
    let apart : tail ≢ x = tail-ne e tail y x ys l.1 d.0 in
    (ground arith, IsLinked-append e tail y i ys l.1 d.1 a.0 a.1 z)

pub IsQueue-append :
    (e : ℕ → ℕ) (head tail i : ℕ) (x : ℕ) (xs : List ℕ)
    → IsQueue e head tail (x ∷ xs)
    → IsDistinct (x ∷ xs)
    → IsAbsent i (x ∷ xs)
    → e i ≡ no_next
    → IsQueue (store e tail (i * 2)) head i (x ∷ (xs ++ i ∷ []))
IsQueue-append e head tail i x xs q d a z = (q.0, IsLinked-append e tail x i xs q.1 d a.0 a.1 z)
