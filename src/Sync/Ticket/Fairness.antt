-- ===== src/Sync/Ticket/Fairness.antt =====
-- What ticket.lock.hpp promises to its callers: one owner, in the order of arrival.
use beelzebub.Common.{
  ℕ, ◌^◌, ◌<◌, ◌≡◌, refl, sym, ◌∙◌, ◌≢◌, ◌⊎◌, inl, inr, ◌↔◌, List, [], ◌∷◌, true, ==_iff, arith,
}
use beelzebub.Sync.Threads.{sum_over, sum_over-zero}
use beelzebub.Sync.Ticket.{
  difference, check, Pc, outside, owning, releasing, System, Step, moves, Reach, start, later,
  initial,
}
use beelzebub.Sync.Ticket.Line.{tickets, WaitsFor, IsServed, IsFirst, Inv, Queue, front}
use beelzebub.Sync.Ticket.Service.{length-le, Move-Next}

abbrev pub mover : {n : ℕ} {s t : System} → Step n s t → ℕ
mover (moves i lt m) = i

-- From a state of fewer than 2^16 threads whose ticket holders stand in a line, a step of a thread
-- leaves the line as it is, puts the thread at its end, or takes the thread away from its front.
-- In a line each thread has the ticket after that of the thread before it, the first one has the
-- ticket `Tail` or owns the lock, and no other owns it.
pub Step-Queue :
    {n : ℕ} {s t : System} (line : List ℕ) (step : Step n s t)
    → Inv n s line
    → (line' : List ℕ) × Queue (mover step) line line' × Inv n t line'
Step-Queue line (moves i lt m) inv = Move-Next i inv lt refl m

pub initial-Inv : (n : ℕ) → n < 2 ^ 16 → Inv n initial []
initial-Inv n few = record {
  few = few;
  tail_fits = omega arith;
  counter = omega arith;
  count = sym (sum_over-zero tickets n outside refl);
  inside = tt;
  distinct = tt;
  ordered = tt;
  absent = λ i lt a. refl;
}

pub Reach-Inv : {n : ℕ} {s : System} → n < 2 ^ 16 → Reach n s → (line : List ℕ) × Inv n s line
Reach-Inv {n} few start = ([], initial-Inv n few)
Reach-Inv few (later r st) =
    let (line, inv) = Reach-Inv few r in
    let (line', q, inv') = Step-Queue line st inv in (line', inv')

abbrev pub owns : Pc → ℕ
owns owning = 1
owns (releasing t) = 1
owns _ = 0

owner-tickets : (p : Pc) → owns p ≡ 1 → tickets p ≡ 1
owner-tickets p h = ground arith

owner-IsFirst : (p : Pc) (tail : ℕ) → owns p ≡ 1 → IsFirst p tail
owner-IsFirst p tail h u lt w = ground arith

-- In every reachable state of fewer than 2^16 threads at most one thread owns the lock.
pub owner-alone :
    {n : ℕ} {s : System}
    → n < 2 ^ 16
    → Reach n s
    → (i j : ℕ) → i < n
    → j < n
    → i ≢ j
    → owns (s.pc i) ≡ 1
    → owns (s.pc j) ≢ 1
owner-alone {n} {s} few r i j p q d own other =
    let (line, inv) = Reach-Inv few r in
    let fore : (k : ℕ) → k < n → owns (s.pc k) ≡ 1 → (rest : List ℕ) × (line ≡ k ∷ rest) = λ k lt o.
      front k line inv lt (owner-tickets (s.pc k) o) (owner-IsFirst (s.pc k) s.word.tail o)
        (length-le inv) in
    let (is, e) = fore i p own in let (js, f) = fore j q other in d (heads (sym e ∙ f))
  where
    heads : {i j : ℕ} {is js : List ℕ} → i ∷ is ≡ j ∷ js → i ≡ j
    heads e = cc

-- `Check` answers that the lock is free exactly when no thread holds a ticket or the lock, in every
-- reachable state of fewer than 2^16 threads.
pub check-free :
    {n : ℕ} {s : System}
    → n < 2 ^ 16
    → Reach n s
    → (check s.word ≡ true) ↔ (sum_over tickets n s.pc ≡ 0)
unfolding check
check-free {n} {s} few r =
    let (line, inv) = Reach-Inv few r in
    (
      (λ h.
          let same = (==_iff s.word.head s.word.tail).0 h in
          let fits = inv.tail_fits in omega (arith, inv.counter, inv.count, length-le inv, few)),
      (λ h.
          (==_iff s.word.head s.word.tail).1
            (let fits = inv.tail_fits in omega (arith, inv.counter, inv.count))),
    )

-- In every reachable state of fewer than 2^16 threads in which one holds a ticket, some thread
-- owns the lock or has the ticket `Tail`, by which its next load of `Tail` makes it the owner.
pub served-next :
    {n : ℕ} {s : System}
    → n < 2 ^ 16
    → Reach n s
    → sum_over tickets n s.pc ≢ 0
    → (i : ℕ) × (i < n)
      × ((owns (s.pc i) ≡ 1)
          ⊎ (WaitsFor (s.pc i) s.word.tail × (difference s.word.tail s.word.tail ≡ 0)))
served-next {n} {s} few r some_ = let (line, inv) = Reach-Inv few r in go line inv
  where
    split : (p : Pc) (tail : ℕ) → IsServed p tail → (owns p ≡ 1) ⊎ WaitsFor p tail
    split p tail h = ground arith

    go :
        (line : List ℕ)
        → Inv n s line
        → (i : ℕ) × (i < n)
          × ((owns (s.pc i) ≡ 1)
              ⊎ (WaitsFor (s.pc i) s.word.tail × (difference s.word.tail s.word.tail ≡ 0)))
    go [] inv = absurd (some_ (sym inv.count))
    go (i ∷ is) inv = (
      i,
      inv.inside.0,
      elim (split (s.pc i) s.word.tail inv.ordered.0) [
        | inl o ↦ inl o
        | inr w ↦ inr (w, let fits = inv.tail_fits in omega arith)
      ],
    )
