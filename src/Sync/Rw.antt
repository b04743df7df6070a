-- ===== src/Sync/Rw.antt =====
-- `RwSpinlock` of sysheaders/common/beel/sync/rw.spinlock.hpp, as built for SMP with inline spinlocks:
-- the threads' steps, an atomic access at a time, in any order.
pub mod Exclusion
mod Tests
use beelzebub.Common.{ℕ, ◌+◌, ◌-◌, ◌*◌, ◌/◌, ◌%◌, ◌^◌, ◌≤◌, ◌<◌, ◌≡◌, ◌≢◌, Bool, not, ◌==◌}
use beelzebub.Sync.Threads.{move_to}

abbrev u32 : ℕ → ℕ
u32 n = n % 2 ^ 32

-- `Wait` is bit 0, `Write` bit 1, and `Read` the unit of the count above them.
abbrev pub wait : ℕ
wait = 1

abbrev pub write : ℕ
write = 2

abbrev pub read : ℕ
read = 4

-- `v & Wait`, `v & (Wait | Write)`, `v & ReadMask`, and whether bit `WriteBit` is set.
abbrev pub wait_of : ℕ → ℕ
wait_of v = v % 2

abbrev pub writer_bits : ℕ → ℕ
writer_bits v = v % 4

abbrev pub read_part : ℕ → ℕ
read_part v = v / 4 * 4

abbrev pub write_bit : ℕ → ℕ
write_bit v = v / 2 % 2

-- `v | Wait`, `v | Write` and `v & ~Write`.
abbrev pub or_wait : ℕ → ℕ
or_wait v = v / 2 * 2 + 1

abbrev pub or_write : ℕ → ℕ
or_write v = v / 4 * 4 + 2 + v % 2

abbrev pub and_not_write : ℕ → ℕ
and_not_write v = v / 4 * 4 + v % 2

abbrev pub plus_read : ℕ → ℕ
plus_read v = u32 (v + read)

abbrev pub minus_read : ℕ → ℕ
minus_read v = u32 (v + 2 ^ 32 - read)

unfoldable pub has_writer : ℕ → Bool
has_writer v = not (writer_bits v == 0)

unfoldable pub get_reader_count : ℕ → ℕ
get_reader_count v = read_part v / 4

-- Where a thread stands, with the local `val` where it is live.
pub data Pc : Type 0 where
  outside : Pc  -- holds nothing, and calls nothing
  stepping_back : Pc  -- `TryAcquireAsReader`, registered beside a writer
  polling : Pc  -- the inner loop of `AcquireAsReader`
  registering : Pc  -- before its `FetchAdd`
  undoing : Pc  -- before its `Value -= Read`
  reading : Pc  -- a reader
  trying : (val : ℕ) → Pc  -- `TryAcquireAsWriter`, after its load
  deciding : (val : ℕ) → Pc  -- the head of the loop of `AcquireAsWriter`
  marking : (val : ℕ) → Pc  -- its test of the wait bit
  awaiting : Pc  -- its inner loop
  writing : Pc  -- the writer
  upgrading : Pc  -- `UpgradeToWriter`, before `Value -= Read`
  draining : Pc  -- its loop
  downgrading : Pc  -- `DowngradeToReader`, before `Value &= ~Write`

-- One atomic access of one thread at the word `v`.
pub data Move (v : ℕ) : Pc → ℕ → Pc → Type 0 where
  try_read : writer_bits v ≡ 0 → Move v outside (plus_read v) reading
  try_read_fails : writer_bits v ≢ 0 → Move v outside (plus_read v) stepping_back
  step_back : Move v stepping_back (minus_read v) outside
  poll : Move v outside v polling
  poll_busy : writer_bits v ≢ 0 → Move v polling v polling
  poll_free : writer_bits v ≡ 0 → Move v polling v registering
  register : writer_bits v ≡ 0 → Move v registering (plus_read v) reading
  register_fails : writer_bits v ≢ 0 → Move v registering (plus_read v) undoing
  undo : Move v undoing (minus_read v) polling
  try_load : Move v outside v (trying v)
  try_write_busy : {val : ℕ} → write ≤ val → Move v (trying val) v outside
  try_write_wins : {val : ℕ} → val < write → v ≡ val → Move v (trying val) (or_write val) writing
  try_write_loses : {val : ℕ} → val < write → v ≢ val → Move v (trying val) v outside
  want_write : Move v outside v (deciding v)
  exchange_wins : {val : ℕ} → val < write → v ≡ val → Move v (deciding val) write writing
  exchange_loses : {val : ℕ} → val < write → v ≢ val → Move v (deciding val) v (marking v)
  decide_busy : {val : ℕ} → write ≤ val → Move v (deciding val) v (marking val)
  mark : {val : ℕ} → wait_of val ≡ 0 → Move v (marking val) (or_wait v) awaiting
  marked : {val : ℕ} → wait_of val ≢ 0 → Move v (marking val) v awaiting
  await_busy : wait < v → Move v awaiting v awaiting
  await_free : v ≤ wait → Move v awaiting v (deciding v)
  upgrade_fails : write_bit v ≢ 0 → Move v reading (or_write v) reading
  upgrade : write_bit v ≡ 0 → Move v reading (or_write v) upgrading
  unregister : Move v upgrading (minus_read v) draining
  drain_busy : read_part v ≢ 0 → Move v draining v draining
  drain_done : read_part v ≡ 0 → Move v draining v writing
  release_read : Move v reading (minus_read v) outside
  release_write : Move v writing (and_not_write v) outside
  downgrade : Move v writing (plus_read v) downgrading
  downgraded : Move v downgrading (and_not_write v) reading

-- The lock's word and where each thread stands.
pub record System : Type 0 where
  pub word : ℕ
  pub pc : ℕ → Pc

-- After `Reset`, with no thread in a call.
abbrev pub initial : System
initial = record { word = 0; pc = λ _. Pc.outside }

-- One of the first `n` threads makes a move.
pub data Step (n : ℕ) (s : System) : System → Type 0 where
  moves :
      (i : ℕ) {v : ℕ} {p : Pc}
      → i < n
      → Move s.word (s.pc i) v p
      → Step n s (record { word = v; pc = move_to s.pc i p })

pub data Reach (n : ℕ) : System → Type 0 where
  start : Reach n initial
  later : {s t : System} → Reach n s → Step n s t → Reach n t
