-- ===== src/IdPool/Releasing.antt =====
-- `Release` of id.pool.hpp puts an identifier behind all the free ones.
use beelzebub.Common.{
  IsAbsent, IsDistinct-append, ℕ, ◌*◌, ◌%◌, ◌^◌, ◌≤◌, ◌<◌, ◌≡◌, refl, ◌≢◌, List, [], ◌∷◌, ◌++◌, All,
  All-append, append-All_left, append-All_right, Bool-cases, ◌⊎◌, inl, inr, Bool, true, false, leb,
  ◌==◌, arith,
}
use beelzebub.IdPool.{IdPool, no_next, store, busy, append_free, release}
use beelzebub.IdPool.Free.{
  IsQueue, IsPool, store-IsLinked, linked-busy, busy-IsAbsent, tail-ne, tail-lt, IsQueue-append,
}

queue-busy :
    (e : ℕ → ℕ) (head tail : ℕ) (xs : List ℕ)
    → IsQueue e head tail xs
    → All (λ y. busy (e y) ≡ 0) xs
queue-busy e head tail [] q = tt
queue-busy e head tail (x ∷ xs) q = linked-busy e tail x xs q.1

-- An identifier whose entry is marked busy is not free.
pub busy_taken :
    (p : IdPool) (free : List ℕ) (i : ℕ) → IsPool p free → busy (p.entries i) ≢ 0 → IsAbsent i free
busy_taken p free i pool n =
    busy-IsAbsent p.entries i free (queue-busy p.entries p.head p.tail free pool.queue) n

-- The entry at the end of the queue now holds the identifier that is given back.
abbrev freed : IdPool → ℕ → IdPool
freed p i = record p { entries = store p.entries i no_next }

append_first :
    (p : IdPool) (i : ℕ)
    → IsPool p []
    → append_free i (freed p i) ≡ record (freed p i) { head = i; tail = i }
unfolding append_free
append_first p i pool = rw (pool.queue.1)

append_more :
    (p : IdPool) (i x : ℕ) (xs : List ℕ)
    → IsPool p (x ∷ xs)
    → i < p.capacity
    → append_free i (freed p i)
      ≡ record (freed p i) { entries = store (store p.entries i no_next) p.tail (i * 2); tail = i }
unfolding append_free
append_more p i x xs pool lt =
    let inside = tail-lt p.entries p.tail x p.capacity xs pool.queue.1 pool.within in
    let more : (p.tail == no_next) ≡ false = ground (arith, pool.small) in
    let word : i * 2 % 2 ^ 64 ≡ i * 2 = omega (arith, pool.small) in rw (more, word)

append_free-IsPool :
    (p : IdPool) (free : List ℕ) (i : ℕ)
    → IsPool p free
    → i < p.capacity
    → busy (p.entries i) ≢ 0
    → IsPool (append_free i (freed p i)) (free ++ i ∷ [])
append_free-IsPool p [] i pool lt n = rw (append_first p i pool) (record {
  small = pool.small;
  queue = (refl, (ground arith, refl));
  distinct = (tt, tt);
  within = (lt, tt);
  taken = λ j j_lt apart. ground (arith, pool.taken j j_lt tt);
})
append_free-IsPool p (x ∷ xs) i pool lt n =
    let absent = busy_taken p (x ∷ xs) i pool n in
    rw (append_more p i x xs pool lt) (record {
      small = pool.small;
      queue =
          IsQueue-append (store p.entries i no_next) p.head p.tail i x xs
            (
              pool.queue.0,
              store-IsLinked p.entries p.tail x i no_next xs pool.queue.1 absent.0 absent.1,
            )
            pool.distinct absent (ground arith);
      distinct = IsDistinct-append i (x ∷ xs) pool.distinct absent;
      within = All-append _ (x ∷ xs) (i ∷ []) pool.within (lt, tt);
      taken = λ j j_lt apart.
          let others = append-All_left _ (x ∷ xs) (i ∷ []) apart in
          let last = append-All_right _ (x ∷ xs) (i ∷ []) apart in
          let not_tail = tail-ne p.entries p.tail x j xs pool.queue.1 others in
          let unmoved = pool.taken j j_lt others in ground arith;
    })

-- What `Release` promises: a busy identifier goes behind all the free ones; one that is out of range
-- or free already is refused, and nothing changes.
abbrev pub Releases : IdPool → List ℕ → ℕ → Bool × IdPool → Type 0
Releases p free i (done, q) =
    ((i < p.capacity) × (busy (p.entries i) ≢ 0) × (done ≡ true) × IsPool q (free ++ i ∷ []))
    ⊎ (((p.capacity ≤ i) ⊎ (busy (p.entries i) ≡ 0)) × (done ≡ false) × (q ≡ p))

-- On a well-formed pool `Release` of a busy identifier puts it behind all the free ones, and the
-- pool is well formed. An identifier that is out of range or already free is refused, and nothing
-- changes.
pub release-Releases :
    (p : IdPool) (free : List ℕ) (i : ℕ) → IsPool p free → Releases p free i (release i p)
unfolding release
release-Releases p free i pool = elim (Bool-cases (leb p.capacity i)) [
  | inl out ↦ inr (inl (ground arith), rw out, rw out)
  | inr fits ↦ elim (Bool-cases (busy (p.entries i) == 0)) [
    | inl free_ ↦ inr (inr (ground arith), rw (fits, free_), rw (fits, free_))
    | inr taken ↦
        let lt : i < p.capacity = ground arith in
        let n : busy (p.entries i) ≢ 0 = ground arith in
        inl (lt, n, rw (fits, taken), rw (fits, taken) (append_free-IsPool p free i pool lt n))
  ]
]
