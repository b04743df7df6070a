-- ===== src/Sync/Rw/Exclusion.antt =====
-- Mutual exclusion of writers, and of the writer and the readers, under rw.spinlock.hpp.
use beelzebub.Common.{ℕ, ◌+◌, ◌*◌, ◌%◌, ◌^◌, ◌≤◌, ◌<◌, ◌≡◌, refl, ◌≢◌, ◌⊎◌, inl, arith}
use beelzebub.Sync.Threads.{
  move_to, sum_over, sum_over-move_to, sum_over_two-le, sum_over-zero, weight-le-sum_over,
  two-le-sum_over,
}
use beelzebub.Sync.Rw.{
  Pc, outside, stepping_back, undoing, reading, writing, deciding, marking, awaiting, upgrading,
  draining, downgrading, Move, System, Step, moves, Reach, start, later, get_reader_count,
  write_bit, wait_of,
}

abbrev pub writes : Pc → ℕ
writes writing = 1
writes _ = 0

-- Owns the write bit without writing.
abbrev pub owns : Pc → ℕ
owns upgrading = 1
owns draining = 1
owns downgrading = 1
owns _ = 0

abbrev pub reads : Pc → ℕ
reads reading = 1
reads _ = 0

-- Is counted in the word without reading.
abbrev pub passes : Pc → ℕ
passes stepping_back = 1
passes undoing = 1
passes upgrading = 1
passes downgrading = 1
passes _ = 0

-- Is in `AcquireAsWriter`, past its first load.
abbrev pub seeks : Pc → ℕ
seeks (deciding _) = 1
seeks (marking _) = 1
seeks awaiting = 1
seeks _ = 0

one_reader : (p : Pc) → reads p + passes p ≤ 1
one_reader p = ground arith

-- The word is four numbers of threads and a wait bit.
pub record Inv (n word : ℕ) (pc : ℕ → Pc) : Type 0 where
  pub few : n < 2 ^ 30
  pub layout :
      word
      ≡ 4 * (sum_over reads n pc + sum_over passes n pc)
        + 2 * (sum_over writes n pc + sum_over owns n pc)
        + word % 2
  pub one_writer : sum_over writes n pc + sum_over owns n pc ≤ 1
  pub waiting : word % 2 ≤ sum_over seeks n pc
  pub exclusive : (sum_over writes n pc ≡ 0) ⊎ (sum_over reads n pc ≡ 0)

-- Thread `i` goes from `p` to `p'`.
record Moved (n : ℕ) (pc : ℕ → Pc) (i : ℕ) (p p' : Pc) : Type 0 where
  writers : sum_over writes n (move_to pc i p') + writes p ≡ sum_over writes n pc + writes p'
  owners : sum_over owns n (move_to pc i p') + owns p ≡ sum_over owns n pc + owns p'
  readers : sum_over reads n (move_to pc i p') + reads p ≡ sum_over reads n pc + reads p'
  passers : sum_over passes n (move_to pc i p') + passes p ≡ sum_over passes n pc + passes p'
  seekers : sum_over seeks n (move_to pc i p') + seeks p ≡ sum_over seeks n pc + seeks p'
  present : seeks p' ≤ sum_over seeks n (move_to pc i p')
  room : sum_over reads n (move_to pc i p') + sum_over passes n (move_to pc i p') ≤ n

moved : (n : ℕ) (pc : ℕ → Pc) (i : ℕ) (p' : Pc) → i < n → Moved n pc i (pc i) p'
moved n pc i p' lt = record {
  writers = sum_over-move_to writes n pc i p' lt;
  owners = sum_over-move_to owns n pc i p' lt;
  readers = sum_over-move_to reads n pc i p' lt;
  passers = sum_over-move_to passes n pc i p' lt;
  seekers = sum_over-move_to seeks n pc i p' lt;
  present = let s = weight-le-sum_over seeks n (move_to pc i p') i lt in ground arith;
  room = sum_over_two-le reads passes n (move_to pc i p') one_reader;
}

Move-Inv :
    {n v : ℕ} {pc : ℕ → Pc} {i : ℕ} {p : Pc} {v' : ℕ} {p' : Pc}
    → Move v p v' p'
    → Moved n pc i p p'
    → Inv n v pc
    → Inv n v' (move_to pc i p')
Move-Inv (Move.try_read g) m inv = ground arith
Move-Inv (Move.try_read_fails g) m inv = ground arith
Move-Inv Move.step_back m inv = ground arith
Move-Inv Move.poll m inv = ground arith
Move-Inv (Move.poll_busy g) m inv = ground arith
Move-Inv (Move.poll_free g) m inv = ground arith
Move-Inv (Move.register g) m inv = ground arith
Move-Inv (Move.register_fails g) m inv = ground arith
Move-Inv Move.undo m inv = ground arith
Move-Inv Move.try_load m inv = ground arith
Move-Inv (Move.try_write_busy g) m inv = ground arith
Move-Inv (Move.try_write_wins g e) m inv = ground arith
Move-Inv (Move.try_write_loses g e) m inv = ground arith
Move-Inv Move.want_write m inv = ground arith
Move-Inv (Move.exchange_wins g e) m inv = ground arith
Move-Inv (Move.exchange_loses g e) m inv = ground arith
Move-Inv (Move.decide_busy g) m inv = ground arith
Move-Inv (Move.mark g) m inv = ground arith
Move-Inv (Move.marked g) m inv = ground arith
Move-Inv (Move.await_busy g) m inv = ground arith
Move-Inv (Move.await_free g) m inv = ground arith
Move-Inv (Move.upgrade_fails g) m inv = ground arith
Move-Inv (Move.upgrade g) m inv = ground arith
Move-Inv Move.unregister m inv = ground arith
Move-Inv (Move.drain_busy g) m inv = ground arith
Move-Inv (Move.drain_done g) m inv = ground arith
Move-Inv Move.release_read m inv = ground arith
Move-Inv Move.release_write m inv = ground arith
Move-Inv Move.downgrade m inv = ground arith
Move-Inv Move.downgraded m inv = ground arith

initial-Inv : (n : ℕ) → n < 2 ^ 30 → Inv n 0 (λ _. outside)
initial-Inv n few = record {
  few = few;
  layout = omega (
    arith,
    sum_over-zero reads n outside refl,
    sum_over-zero passes n outside refl,
    sum_over-zero writes n outside refl,
    sum_over-zero owns n outside refl,
  );
  one_writer =
      omega (arith, sum_over-zero writes n outside refl, sum_over-zero owns n outside refl);
  waiting = omega arith;
  exclusive = inl (sum_over-zero writes n outside refl);
}

pub Step-Inv : {n : ℕ} {s t : System} → Step n s t → Inv n s.word s.pc → Inv n t.word t.pc
Step-Inv {n} {s} (moves i {p = p} lt mv) inv = Move-Inv mv (moved n s.pc i p lt) inv

pub Reach-Inv : {n : ℕ} {s : System} → n < 2 ^ 30 → Reach n s → Inv n s.word s.pc
Reach-Inv {n} few start = initial-Inv n few
Reach-Inv few (later r st) = Step-Inv st (Reach-Inv few r)

-- In a reachable state of fewer than 2^30 threads, while one writes no other writes or reads.
pub writer-alone :
    {n : ℕ} {s : System}
    → n < 2 ^ 30
    → Reach n s
    → (i j : ℕ) → i < n
    → j < n
    → i ≢ j
    → s.pc i ≡ writing
    → (s.pc j ≢ writing) × (s.pc j ≢ reading)
writer-alone {n} {s} few r i j p q d w =
    let inv = Reach-Inv few r in
    let both = two-le-sum_over writes n s.pc i j p q d in
    let one = weight-le-sum_over writes n s.pc i p in
    let reader = weight-le-sum_over reads n s.pc j q in ((λ e. ground arith), (λ e. ground arith))

-- In a reachable state of fewer than 2^30 threads, `GetReaderCount` is the number of threads that
-- read or are registered in passing, the write bit is the number that write or own the bit on the
-- way to or from writing, and the wait bit is at most the number in `AcquireAsWriter`.
pub word-reports :
    {n : ℕ} {s : System}
    → n < 2 ^ 30
    → Reach n s
    → (get_reader_count s.word ≡ sum_over reads n s.pc + sum_over passes n s.pc)
      × (write_bit s.word ≡ sum_over writes n s.pc + sum_over owns n s.pc)
      × (wait_of s.word ≤ sum_over seeks n s.pc)
unfolding get_reader_count
word-reports few r = let inv = Reach-Inv few r in omega arith
