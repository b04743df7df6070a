-- ===== src/Sync/Ticket/Tests.antt =====
-- The ticket lock of ticket.lock.hpp at three threads.
use beelzebub.Common.{ℕ, ◌≡◌, refl, ◌≢◌, ◌<◌, ◌⊎◌, List, [], arith}
use beelzebub.Sync.Threads.{sum_over, move_to}
use beelzebub.Sync.Ticket.{difference, Pc, Move, System, Step, moves, Reach, start, later, initial}
use beelzebub.Sync.Ticket.Line.{tickets, WaitsFor, Inv, Queue}
use beelzebub.Sync.Ticket.Fairness.{mover, owns, Step-Queue, initial-Inv, owner-alone, served-next}

-- Thread 1 takes a ticket.
abbrev one_waits : System
one_waits = record {
  word = record { tail = 0; head = 1 };
  pc = move_to initial.pc 1 (Pc.awaiting 0);
}

-- It is called.
abbrev one_owns : System
one_owns = record { word = one_waits.word; pc = move_to one_waits.pc 1 Pc.owning }

-- Thread 2 takes the next ticket.
abbrev two_waits : System
two_waits = record {
  word = record { tail = 0; head = 2 };
  pc = move_to one_owns.pc 2 (Pc.awaiting 1);
}

first_step : Step 3 initial one_waits
first_step = moves 1 (omega arith) Move.take_ticket

two_waits-Reach : Reach 3 two_waits
two_waits-Reach =
    later (later (later start first_step) (moves 1 (omega arith) (Move.called refl)))
      (moves 2 (omega arith) Move.take_ticket)

Step-Queue_example : (line : List ℕ) × Queue (mover first_step) [] line × Inv 3 one_waits line
Step-Queue_example = Step-Queue [] first_step (initial-Inv 3 (omega arith))

owner-alone_example : owns (two_waits.pc 2) ≢ 1
owner-alone_example =
    owner-alone (omega arith) two_waits-Reach 1 2 (omega arith) (omega arith) (λ e. omega arith)
      refl

two_tickets : sum_over tickets 3 two_waits.pc ≢ 0
unfolding sum_over
two_tickets e = omega arith

served-next_example :
    (i : ℕ) × (i < 3)
    × ((owns (two_waits.pc i) ≡ 1)
        ⊎ (WaitsFor (two_waits.pc i) two_waits.word.tail
            × (difference two_waits.word.tail two_waits.word.tail ≡ 0)))
served-next_example = served-next (omega arith) two_waits-Reach two_tickets
