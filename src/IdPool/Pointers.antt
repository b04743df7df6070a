-- ===== src/IdPool/Pointers.antt =====
-- The pointers behind the identifiers of id.pool.hpp: `SetPointer`, `UnsetPointer` and `Resolve`.
use beelzebub.Common.{
  IsAbsent, ℕ, ◌%◌, ◌<◌, ◌≡◌, refl, ◌≢◌, inl, inr, List, [], ◌∷◌, true, false, leb, ltb, ◌==◌, ◌||◌,
  if◌then◌else◌, Bool-cases, arith,
}
use beelzebub.IdPool.{
  IdPool, no_next, not_free, unallocated, store, busy, set_pointer, unset_pointer, resolve,
}
use beelzebub.IdPool.Free.{IsQueue, IsPool, store-IsLinked}
use beelzebub.IdPool.Releasing.{busy_taken}

-- A busy mark written over a busy entry changes nothing about the free identifiers.
remark-IsPool :
    (p : IdPool) (free : List ℕ) (i mark : ℕ)
    → IsPool p free
    → busy (p.entries i) ≢ 0
    → busy mark ≡ 1
    → IsPool (record p { entries = store p.entries i mark }) free
remark-IsPool p free i mark pool n odd = record {
  small = pool.small;
  queue = keep free pool.queue (busy_taken p free i pool n);
  distinct = pool.distinct;
  within = pool.within;
  taken = λ j lt a. ground (arith, pool.taken j lt a);
}
  where
    keep :
        (xs : List ℕ)
        → IsQueue p.entries p.head p.tail xs
        → IsAbsent i xs
        → IsQueue (store p.entries i mark) p.head p.tail xs
    keep [] q a = q
    keep (x ∷ xs) q a = (q.0, store-IsLinked p.entries p.tail x i mark xs q.1 a.0 a.1)

-- `SetPointer` leaves the free identifiers as they are, whatever it is given.
pub set_pointer-IsPool :
    (p : IdPool) (free : List ℕ) (i val : ℕ) → IsPool p free → IsPool (set_pointer i val p).1 free
unfolding set_pointer
set_pointer-IsPool p free i val pool = elim (Bool-cases (leb p.capacity i || ltb 0 (busy val))) [
  | inl bad ↦ rw bad pool
  | inr good ↦ elim (Bool-cases (p.entries i == unallocated)) [
    | inl fresh ↦ rw (good, fresh) (remark-IsPool p free i _ pool (ground arith) (omega arith))
    | inr used ↦ rw (good, used) pool
  ]
]

-- So does `UnsetPointer`.
pub unset_pointer-IsPool :
    (p : IdPool) (free : List ℕ) (i val : ℕ) → IsPool p free → IsPool (unset_pointer i val p).2 free
unfolding unset_pointer
unset_pointer-IsPool p free i val pool = elim (Bool-cases (leb p.capacity i)) [
  | inl out ↦ rw out pool
  | inr fits ↦ elim (Bool-cases (p.entries i == unallocated || busy (p.entries i) == 0)) [
    | inl none_ ↦ rw (fits, none_) pool
    | inr held ↦ rw (fits, held) (remark-IsPool p free i _ pool (ground arith) refl)
  ]
]

-- After `SetPointer` on an identifier that has been acquired and has no pointer yet, `Resolve` gives
-- that pointer back, and every other identifier resolves as before. The pointer has its lowest bit
-- clear and is not `NoNext`.
pub resolve-set_pointer :
    (p : IdPool) (i val j : ℕ)
    → i < p.capacity
    → p.entries i ≡ unallocated
    → val % 2 ≡ 0
    → val < no_next
    → ((set_pointer i val p).0 ≡ true)
      × (resolve j (set_pointer i val p).1 ≡ (if i == j then val else resolve j p))
unfolding set_pointer resolve
resolve-set_pointer p i val j lt fresh even small =
    let good : (leb p.capacity i || ltb 0 (busy val)) ≡ false = ground arith in
    let is_fresh : (p.entries i == unallocated) ≡ true = ground arith in
    rw (good, is_fresh) (refl, (ground arith))

-- `UnsetPointer` does not clear the pointer: where it succeeds, `val` is as the caller left it, the
-- identifier resolves to an address that is not null, and a second call succeeds as well.
pub unset_pointer_leaves :
    (p : IdPool) (i val val' : ℕ)
    → (unset_pointer i val p).0 ≡ true
    → ((unset_pointer i val p).1 ≡ val)
      × (resolve i (unset_pointer i val p).2 ≡ not_free)
      × ((unset_pointer i val' (unset_pointer i val p).2).0 ≡ true)
unfolding unset_pointer resolve
unset_pointer_leaves p i val val' done = elim (Bool-cases (leb p.capacity i)) [
  | inl out ↦ absurd (ground arith)
  | inr fits ↦ elim (Bool-cases (p.entries i == unallocated || busy (p.entries i) == 0)) [
    | inl none_ ↦ absurd (ground arith)
    | inr held ↦ rw (fits, held) (ground arith)
  ]
]
