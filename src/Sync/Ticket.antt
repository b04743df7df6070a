-- ===== src/Sync/Ticket.antt =====
-- `TicketLock` of sysheaders/common/beel/sync/ticket.lock.hpp, as built for SMP with inline spinlocks:
-- the threads' steps, an access to the shared word at a time, in any order.
pub mod Line
pub mod Service
pub mod Fairness
mod Tests
use beelzebub.Common.{ℕ, ◌+◌, ◌-◌, ◌%◌, ◌^◌, ◌<◌, ◌≡◌, ◌≢◌, ◌⊎◌, Bool, ◌==◌}
use beelzebub.Sync.Threads.{move_to}

abbrev pub u16 : ℕ → ℕ
u16 n = n % 2 ^ 16

-- `myTicket - this->Value.Tail`.
abbrev pub difference : ℕ → ℕ → ℕ
difference my_ticket tail = u16 (my_ticket + 2 ^ 16 - tail)

-- Where a thread stands, with its live locals.
pub data Pc : Type 0 where
  outside : Pc  -- holds nothing, and calls nothing
  trying : (old_head : ℕ) → Pc  -- `TryAcquire`, after its load
  spinning : Pc  -- `Spin` or `Await`
  awaiting : (my_ticket : ℕ) → Pc  -- `Acquire`, before a load of `Tail`
  backing_off : (my_ticket diff : ℕ) → Pc  -- its inner loop, before `--diff`
  owning : Pc  -- the lock's owner
  releasing : (tail : ℕ) → Pc  -- `Release`, between the load and the store of `++Tail`

-- `Value`.
pub record Word : Type 0 where
  pub tail : ℕ
  pub head : ℕ

-- One access, or one round of a loop on locals, of one thread at the word `w`.
pub data Move (w : Word) : Pc → Word → Pc → Type 0 where
  try_load : Move w outside w (trying w.head)
  try_wins :
      {old_head : ℕ}
      → w.tail ≡ old_head
      → w.head ≡ old_head
      → Move w (trying old_head) (record { tail = old_head; head = u16 (old_head + 1) }) owning
  try_loses :
      {old_head : ℕ}
      → (w.tail ≢ old_head) ⊎ (w.head ≢ old_head)
      → Move w (trying old_head) w outside
  want_free : Move w outside w spinning
  spin_busy : w.tail ≢ w.head → Move w spinning w spinning
  spin_free : w.tail ≡ w.head → Move w spinning w outside
  take_ticket : Move w outside (record w { head = u16 (w.head + 1) }) (awaiting w.head)
  called : {t : ℕ} → difference t w.tail ≡ 0 → Move w (awaiting t) w owning
  not_called :
      {t : ℕ}
      → difference t w.tail ≢ 0
      → Move w (awaiting t) w (backing_off t (difference t w.tail))
  back_off :
      {t diff : ℕ}
      → diff ≢ 1
      → Move w (backing_off t diff) w (backing_off t (u16 (diff + 2 ^ 16 - 1)))
  look_again : {t diff : ℕ} → diff ≡ 1 → Move w (backing_off t diff) w (awaiting t)
  release_load : Move w owning w (releasing w.tail)
  release_store : {t : ℕ} → Move w (releasing t) (record w { tail = u16 (t + 1) }) outside

-- `Check`.
unfoldable pub check : Word → Bool
check w = w.head == w.tail

pub record System : Type 0 where
  pub word : Word
  pub pc : ℕ → Pc

-- After `Reset`, with no thread in a call.
abbrev pub initial : System
initial = record { word = record { tail = 0; head = 0 }; pc = λ _. Pc.outside }

-- One of the first `n` threads makes a move.
pub data Step (n : ℕ) (s : System) : System → Type 0 where
  moves :
      (i : ℕ) {w : Word} {p : Pc}
      → i < n
      → Move s.word (s.pc i) w p
      → Step n s (record { word = w; pc = move_to s.pc i p })

pub data Reach (n : ℕ) : System → Type 0 where
  start : Reach n initial
  later : {s t : System} → Reach n s → Step n s t → Reach n t
