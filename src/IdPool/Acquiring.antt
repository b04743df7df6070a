-- ===== src/IdPool/Acquiring.antt =====
-- `Acquire` of id.pool.hpp takes the first of the free identifiers.
use beelzebub.Common.{
  IsAbsent, ℕ, ◌*◌, ◌/◌, ◌<◌, ◌≡◌, refl, List, [], ◌∷◌, false, ◌==◌, ℕ_discrete, arith,
}
use beelzebub.IdPool.{IdPool, no_next, unallocated, store, busy, take_head, acquire, acquire_for}
use beelzebub.IdPool.Free.{IsPool, store-IsLinked}

taken_last :
    (p : IdPool) (mark x : ℕ)
    → IsPool p (x ∷ [])
    → take_head mark p
      ≡ record p { head = no_next; tail = no_next; entries = store p.entries x mark }
unfolding take_head
taken_last p mark x pool = rw (pool.queue.0, pool.queue.1.0)

taken_more :
    (p : IdPool) (mark x y : ℕ) (ys : List ℕ)
    → IsPool p (x ∷ y ∷ ys)
    → take_head mark p ≡ record p { head = y; entries = store p.entries x mark }
unfolding take_head
taken_more p mark x y ys pool =
    let more : (y * 2 == no_next) ≡ false = ground (arith, pool.within.1.0, pool.small) in
    let next : y * 2 / 2 ≡ y = omega arith in rw (pool.queue.0, pool.queue.1.0, more, next)

-- Every identifier but the first of the queue was busy, and that one becomes so.
taken_store :
    (p : IdPool) (mark x : ℕ) (xs : List ℕ)
    → IsPool p (x ∷ xs)
    → busy mark ≡ 1
    → (i : ℕ) → i < p.capacity
    → IsAbsent i xs
    → busy (store p.entries x mark i) ≡ 1
taken_store p mark x xs pool odd i lt a = elim (ℕ_discrete x i) [
  | yes e ↦ rw e (ground arith)
  | no n ↦ let other = pool.taken i lt (n, a) in ground arith
]

take_head-IsPool :
    (p : IdPool) (mark x : ℕ) (xs : List ℕ)
    → IsPool p (x ∷ xs)
    → busy mark ≡ 1
    → IsPool (take_head mark p) xs
take_head-IsPool p mark x [] pool odd = rw (taken_last p mark x pool) (record {
  small = pool.small;
  queue = (refl, refl);
  distinct = tt;
  within = tt;
  taken = taken_store p mark x [] pool odd;
})
take_head-IsPool p mark x (y ∷ ys) pool odd = rw (taken_more p mark x y ys pool) (record {
  small = pool.small;
  queue = (
    refl,
    store-IsLinked p.entries p.tail y x mark ys pool.queue.1.1 pool.distinct.0.0 pool.distinct.0.1,
  );
  distinct = pool.distinct.1;
  within = pool.within.1;
  taken = taken_store p mark x (y ∷ ys) pool odd;
})

-- What `Acquire` promises of a pool whose free identifiers are `free`.
abbrev pub Acquires : IdPool → List ℕ → ℕ × IdPool → Type 0
Acquires p [] (id, q) = (id ≡ no_next) × (q ≡ p)
Acquires p (x ∷ xs) (id, q) = (id ≡ x) × IsPool q xs

head_small : (p : IdPool) (x : ℕ) (xs : List ℕ) → IsPool p (x ∷ xs) → (p.head == no_next) ≡ false
head_small p x xs pool = ground (arith, pool.queue.0, pool.within.0, pool.small)

-- `Acquire` on a well-formed pool hands out the first free identifier, and leaves a well-formed
-- pool with the others in order; without one it returns `NoNext` and changes nothing.
pub acquire-Acquires : (p : IdPool) (free : List ℕ) → IsPool p free → Acquires p free (acquire p)
unfolding acquire
acquire-Acquires p [] pool = (pool.queue.0, rw (pool.queue.0))
acquire-Acquires p (x ∷ xs) pool =
    (pool.queue.0, rw (head_small p x xs pool) (take_head-IsPool p unallocated x xs pool refl))

-- `Acquire(val)` does the same, whatever `val` is.
pub acquire_for-Acquires :
    (p : IdPool) (free : List ℕ) (val : ℕ) → IsPool p free → Acquires p free (acquire_for val p)
unfolding acquire_for
acquire_for-Acquires p [] val pool = (pool.queue.0, rw (pool.queue.0))
acquire_for-Acquires p (x ∷ xs) val pool =
    (pool.queue.0, rw (head_small p x xs pool) (take_head-IsPool p _ x xs pool (omega arith)))
