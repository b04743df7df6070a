-- ===== src/IdPool.antt =====
-- sysheaders/common/beel/utils/id.pool.hpp on amd64: a pool of identifiers, which hands each one out
-- with a pointer and keeps the free ones in a queue that is threaded through its entries. A call is
-- one step: the lock and the compare-exchanges make each the only one at work on what it touches.
pub mod Free
pub mod Acquiring
pub mod Releasing
pub mod Creation
pub mod Pointers
pub mod History
mod Tests
use beelzebub.Common.{
  ℕ, zero, suc, ◌+◌, ◌-◌, ◌*◌, ◌/◌, ◌%◌, ◌^◌, Bool, true, false, ltb, leb, ◌==◌, if◌then◌else◌, u64,
  ◌||◌,
}

abbrev pub no_next : ℕ
no_next = 0xFFFFFFFFFFFFFFFE

abbrev pub not_free : ℕ
not_free = 0xFFFFFFFFFFFFFFFC

abbrev pub unallocated : ℕ
unallocated = 0xFFFFFFFFFFFFFFFF

abbrev pub deallocated : ℕ
deallocated = 0xFFFFFFFFFFFFFFFD

-- `v & BusyMask`, `v & ValueMask`, `v | BusyMask`, `v << ValueShift` and `v >> ValueShift`.
abbrev pub busy : ℕ → ℕ
busy v = v % 2

abbrev pub value : ℕ → ℕ
value v = v / 2 * 2

abbrev pub with_busy : ℕ → ℕ
with_busy v = v / 2 * 2 + 1

abbrev pub shift_left : ℕ → ℕ
shift_left v = u64 (v * 2)

abbrev pub shift_right : ℕ → ℕ
shift_right v = v / 2

-- `Entries` is memory, of which the first `capacity` words belong to the pool.
pub record IdPool : Type 0 where
  pub head : ℕ
  pub tail : ℕ
  pub entries : ℕ → ℕ
  pub capacity : ℕ

abbrev pub store : (ℕ → ℕ) → ℕ → ℕ → ℕ → ℕ
store entries i v j = if i == j then v else entries j

-- The first `n` words link each to the next: the `for` loop of the constructor, `n` rounds of it.
unfoldable pub link_entries : ℕ → (ℕ → ℕ) → ℕ → ℕ
link_entries zero entries = entries
link_entries (suc n) entries = store (link_entries n entries) n (shift_left (n + 1))

unfoldable pub no_pool : IdPool
no_pool = record { head = no_next; tail = no_next; entries = λ _. 0; capacity = 0 }

-- `IdPool(storage, cap)`. For `cap` 0 the bound `cap - 1` of its loop wraps.
unfoldable pub create : (ℕ → ℕ) → ℕ → IdPool
unfolding link_entries
create storage cap =
    let last = u64 (cap + 2 ^ 64 - 1) in
    record {
      head = 0;
      tail = last;
      entries = store (link_entries last storage) last no_next;
      capacity = cap;
    }

unfoldable pub get_capacity : IdPool → ℕ
get_capacity p = p.capacity

-- What both `Acquire`s do to a pool whose head is an identifier; `mark` is what its entry becomes.
unfoldable pub take_head : ℕ → IdPool → IdPool
take_head mark p =
    let head = p.head in
    let next = p.entries head in
    if next == no_next
    then record p { head = no_next; tail = no_next; entries = store p.entries head mark }
    else record p { head = shift_right next; entries = store p.entries head mark }

unfoldable pub acquire : IdPool → ℕ × IdPool
unfolding take_head
acquire p = (p.head, (if p.head == no_next then p else take_head unallocated p))

-- `Acquire(val)`.
unfoldable pub acquire_for : ℕ → IdPool → ℕ × IdPool
unfolding take_head
acquire_for val p = (p.head, (if p.head == no_next then p else take_head (with_busy val) p))

unfoldable pub set_pointer : ℕ → ℕ → IdPool → Bool × IdPool
set_pointer id val p =
    if leb p.capacity id || ltb 0 (busy val)
    then (false, p)
    else if p.entries id == unallocated
    then (true, record p { entries = store p.entries id (with_busy val) })
    else (false, p)

-- `val` is passed by reference, and is what the caller finds in it afterwards.
unfoldable pub unset_pointer : ℕ → ℕ → IdPool → Bool × ℕ × IdPool
unset_pointer id val p =
    if leb p.capacity id
    then (false, val, p)
    else if p.entries id == unallocated || busy (p.entries id) == 0
    then (false, val, p)
    else (true, val, record p { entries = store p.entries id deallocated })

-- 0 is `nullptr`.
unfoldable pub resolve : ℕ → IdPool → ℕ
resolve id p =
    if leb p.capacity id
    then 0
    else if p.entries id == unallocated || busy (p.entries id) == 0
    then 0
    else value (p.entries id)

-- The end of `Release`, under the lock: `id` goes to the end of the queue.
unfoldable pub append_free : ℕ → IdPool → IdPool
append_free id p =
    if p.tail == no_next
    then record p { head = id; tail = id }
    else record p { entries = store p.entries p.tail (shift_left id); tail = id }

unfoldable pub release : ℕ → IdPool → Bool × IdPool
unfolding append_free
release id p =
    if leb p.capacity id
    then (false, p)
    else if busy (p.entries id) == 0
    then (false, p)
    else (true, append_free id (record p { entries = store p.entries id no_next }))
