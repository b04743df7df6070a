-- ===== src/IdPool/History.antt =====
-- Histories of calls on a pool of id.pool.hpp, and what they keep.
use beelzebub.Common.{IsAbsent, ℕ, ap, ◌≢◌, inl, inr, List, [], ◌∷◌, ◌++◌, All-append, Bool}
use beelzebub.IdPool.{IdPool, acquire, acquire_for, set_pointer, unset_pointer, release}
use beelzebub.IdPool.Free.{IsPool}
use beelzebub.IdPool.Acquiring.{Acquires, acquire-Acquires, acquire_for-Acquires}
use beelzebub.IdPool.Releasing.{Releases, release-Releases}
use beelzebub.IdPool.Pointers.{set_pointer-IsPool, unset_pointer-IsPool}

pub data Call : Type 0 where
  acquires : Call
  acquires_for : (val : ℕ) → Call
  sets unsets : (id val : ℕ) → Call
  releases : (id : ℕ) → Call

pub step : Call → IdPool → IdPool
step acquires p = (acquire p).1
step (acquires_for val) p = (acquire_for val p).1
step (sets id val) p = (set_pointer id val p).1
step (unsets id val) p = (unset_pointer id val p).2
step (releases id) p = (release id p).1

pub run : List Call → IdPool → IdPool
run [] p = p
run (c ∷ cs) p = run cs (step c p)

-- A well-formed pool in which `x` is not free.
pub record Holds (x : ℕ) (p : IdPool) : Type 0 where
  pub free : List ℕ
  pub pool : IsPool p free
  pub absent : IsAbsent x free

acquired-Holds :
    (x : ℕ) (p : IdPool) (free : List ℕ) (r : ℕ × IdPool)
    → IsPool p free
    → IsAbsent x free
    → Acquires p free r
    → Holds x r.1
acquired-Holds x p [] (id, q) pool a h = record { free = []; pool = rw (h.1) pool; absent = tt }
acquired-Holds x p (y ∷ ys) (id, q) pool a h = record { free = ys; pool = h.1; absent = a.1 }

released-Holds :
    (x i : ℕ) (p : IdPool) (free : List ℕ) (r : Bool × IdPool)
    → IsPool p free
    → IsAbsent x free
    → i ≢ x
    → Releases p free i r
    → Holds x r.1
released-Holds x i p free (done, q) pool a n (inl h) = record {
  free = free ++ i ∷ [];
  pool = h.3;
  absent = All-append _ free (i ∷ []) a (n, tt);
}
released-Holds x i p free (done, q) pool a n (inr h) = record {
  free = free;
  pool = rw (h.2) pool;
  absent = a;
}

pub step-Holds : (x : ℕ) (c : Call) (p : IdPool) → c ≢ releases x → Holds x p → Holds x (step c p)
unfolding step
step-Holds x acquires p n h =
    acquired-Holds x p h.free _ h.pool h.absent (acquire-Acquires p h.free h.pool)
step-Holds x (acquires_for val) p n h =
    acquired-Holds x p h.free _ h.pool h.absent (acquire_for-Acquires p h.free val h.pool)
step-Holds x (sets id val) p n h = record {
  free = h.free;
  pool = set_pointer-IsPool p h.free id val h.pool;
  absent = h.absent;
}
step-Holds x (unsets id val) p n h = record {
  free = h.free;
  pool = unset_pointer-IsPool p h.free id val h.pool;
  absent = h.absent;
}
step-Holds x (releases id) p n h =
    released-Holds x id p h.free _ h.pool h.absent (λ e. n (ap releases e))
      (release-Releases p h.free id h.pool)
