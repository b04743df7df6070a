-- ===== src/Sync/Rw/Tests.antt =====
-- The read-write spinlock of rw.spinlock.hpp at two threads.
use beelzebub.Common.{◌≢◌, refl, arith}
use beelzebub.Sync.Threads.{move_to}
use beelzebub.Sync.Rw.{Pc, Move, System, moves, Reach, start, later, initial}
use beelzebub.Sync.Rw.Exclusion.{writer-alone}

-- Thread 0 is about to take the lock as a writer.
abbrev wanted : System
wanted = record { word = 0; pc = move_to initial.pc 0 (Pc.deciding 0) }

-- It is the writer.
abbrev taken : System
taken = record { word = 2; pc = move_to wanted.pc 0 Pc.writing }

-- Thread 1 has registered beside it.
abbrev beside : System
beside = record { word = 6; pc = move_to taken.pc 1 Pc.stepping_back }

beside-Reach : Reach 2 beside
beside-Reach =
    later
      (later (later start (moves 0 (omega arith) Move.want_write))
        (moves 0 (omega arith) (Move.exchange_wins (omega arith) refl)))
      (moves 1 (omega arith) (Move.try_read_fails (λ e. omega arith)))

writer-alone_example : (beside.pc 1 ≢ Pc.writing) × (beside.pc 1 ≢ Pc.reading)
writer-alone_example =
    writer-alone (omega arith) beside-Reach 0 1 (omega arith) (omega arith) (λ e. omega arith) refl
