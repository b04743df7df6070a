-- ===== src/Sync/Ticket/Service.antt =====
-- Every step of ticket.lock.hpp is a step of a queue.
use beelzebub.Common.{
  ℕ, ◌+◌, ◌≤◌, ◌<◌, ◌≡◌, refl, sym, ap, subst, ◌∙◌, ◌≢◌, List, [], ◌∷◌, ◌++◌, length, length-append,
  All-append, IsAbsent, IsDistinct-append, append-All_left, append-All_right, ℕ_discrete, arith,
}
use beelzebub.Sync.Threads.{move_to, move_to_self, move_to_other, sum_over-move_to, sum_over_two-le}
use beelzebub.Sync.Ticket.{
  u16, difference, Pc, outside, trying, awaiting, owning, releasing, Word, Move, System,
}
use beelzebub.Sync.Ticket.Line.{
  tickets, WaitsFor, IsServed, IsLine, Inv, Queue, stays, joins, leaves, IsLine-move_to,
  IsLine-same, IsLine-after, IsLine-append, IsBehind-move_to, front, IsFirst, line-IsAbsent,
}

abbrev at : System → Word → ℕ → Pc → System
at s w i p = record { word = w; pc = move_to s.pc i p }

one_ticket : (p : Pc) → tickets p + 0 ≤ 1
one_ticket p = ground arith

pub length-le : {n : ℕ} {s : System} {line : List ℕ} → Inv n s line → length line ≤ n
length-le {n} {s} inv = omega (arith, inv.count, sum_over_two-le tickets (λ _. 0) n s.pc one_ticket)

module _ {n : ℕ} {s : System} {line : List ℕ} (inv : Inv n s line) (i : ℕ) (lt : i < n) where
  after-Inv-absent :
      (p : Pc) (line' : List ℕ)
      → ((j : ℕ) → i ≢ j → IsAbsent j line' → IsAbsent j line)
      → (IsAbsent i line' → tickets p ≡ 0)
      → (j : ℕ) → j < n
      → IsAbsent j line'
      → tickets (move_to s.pc i p j) ≡ 0
  after-Inv-absent p line' old new j lj a = elim (ℕ_discrete i j) [
    | yes e ↦ rw (move_to_self s.pc i j p e) (new (subst (λ x. IsAbsent x line') (sym e) a))
    | no d ↦ rw (move_to_other s.pc i j p d) (inv.absent j lj (old j d a))
  ]

  -- The thread's ticket is as it was.
  stays-Inv :
      (p : Pc)
      → tickets p ≡ tickets (s.pc i)
      → ((u : ℕ) → WaitsFor (s.pc i) u → WaitsFor p u)
      → (IsServed (s.pc i) s.word.tail → IsServed p s.word.tail)
      → Inv n (at s s.word i p) line
  stays-Inv p same kept served = record {
    few = inv.few;
    tail_fits = inv.tail_fits;
    counter = inv.counter;
    count = omega (arith, inv.count, same, sum_over-move_to tickets n s.pc i p lt);
    inside = inv.inside;
    distinct = inv.distinct;
    ordered = IsLine-same s.pc i p kept s.word.tail line served inv.ordered;
    absent = after-Inv-absent p line (λ j d a. a) (λ a. same ∙ inv.absent i lt a);
  }

  module _ (idle : tickets (s.pc i) ≡ 0) where
    not_in_line : IsAbsent i line
    not_in_line = line-IsAbsent s.pc s.word.tail i line idle inv.ordered

    -- The thread takes the next ticket.
    joins-Inv :
        (p : Pc) (w : Word)
        → tickets p ≡ 1
        → w.tail ≡ s.word.tail
        → w.head ≡ u16 (s.word.head + 1)
        → IsLine (move_to s.pc i p) s.word.tail (line ++ i ∷ [])
        → Inv n (at s w i p) (line ++ i ∷ [])
    joins-Inv p w one same next ordered = record {
      few = inv.few;
      tail_fits = let t = inv.tail_fits in omega arith;
      counter = let c = inv.counter in omega (arith, length-append line (i ∷ []));
      count = omega (
        arith,
        inv.count,
        idle,
        one,
        length-append line (i ∷ []),
        sum_over-move_to tickets n s.pc i p lt,
      );
      inside = All-append _ line (i ∷ []) inv.inside (lt, tt);
      distinct = IsDistinct-append i line inv.distinct not_in_line;
      ordered = subst (λ t. IsLine (move_to s.pc i p) t (line ++ i ∷ [])) (sym same) ordered;
      absent =
          after-Inv-absent p (line ++ i ∷ []) (λ j d a. append-All_left _ line (i ∷ []) a)
            (λ a. absurd ((append-All_right _ line (i ∷ []) a).0 refl));
    }

-- The thread at the front gives the lock up.
leaves-Inv :
    {n : ℕ} {s : System} {i : ℕ} {rest : List ℕ}
    → Inv n s (i ∷ rest)
    → i < n
    → tickets (s.pc i) ≡ 1
    → Inv n (at s (record { tail = u16 (s.word.tail + 1); head = s.word.head }) i outside) rest
leaves-Inv {n} {s} {i} {rest} inv lt one = record {
  few = inv.few;
  tail_fits = omega arith;
  counter = let c = inv.counter in omega arith;
  count = omega (arith, inv.count, one, sum_over-move_to tickets n s.pc i outside lt);
  inside = inv.inside.1;
  distinct = inv.distinct.1;
  ordered =
      IsLine-after (move_to s.pc i outside) s.word.tail rest
        (IsBehind-move_to s.pc i outside (s.word.tail + 1) rest inv.distinct.0 inv.ordered.1);
  absent = after-Inv-absent inv i lt outside rest (λ j d a. (d, a)) (λ a. refl);
}

abbrev Next : ℕ → System → ℕ → List ℕ → System → Type 0
Next n s i line t = (line' : List ℕ) × Queue i line line' × Inv n t line'

empty-line :
    {n : ℕ} {s : System} {line : List ℕ} → Inv n s line → s.word.tail ≡ s.word.head → line ≡ []
empty-line {line = []} inv e = refl
empty-line {line = i ∷ is} inv e =
    absurd (let few = inv.few in let t = inv.tail_fits in omega (arith, inv.counter, length-le inv))

-- The thread goes from `p` to `q` with the ticket that it has.
keep :
    {n : ℕ} {s : System} {line : List ℕ} {i : ℕ} {p : Pc} (q : Pc)
    → Inv n s line
    → i < n
    → s.pc i ≡ p
    → tickets q ≡ tickets p
    → ((u : ℕ) → WaitsFor p u → WaitsFor q u)
    → (IsServed p s.word.tail → IsServed q s.word.tail)
    → Next n s i line (at s s.word i q)
keep {n} {s} {line} {i} {p} q inv lt here same kept served =
    (line, stays, stays-Inv inv i lt q (rw here same) (rw here kept) (rw here served))

-- The thread at the front becomes the owner.
enter :
    {n : ℕ} {s : System} {i : ℕ} {rest : List ℕ}
    → Inv n s (i ∷ rest)
    → i < n
    → tickets (s.pc i) ≡ 1
    → Inv n (at s s.word i owning) (i ∷ rest)
enter {n} {s} {i} {rest} inv lt one = record {
  few = inv.few;
  tail_fits = inv.tail_fits;
  counter = inv.counter;
  count = omega (arith, inv.count, one, sum_over-move_to tickets n s.pc i owning lt);
  inside = inv.inside;
  distinct = inv.distinct;
  ordered = (
    rw (move_to_self s.pc i i owning refl) tt,
    IsBehind-move_to s.pc i owning (s.word.tail + 1) rest inv.distinct.0 inv.ordered.1,
  );
  absent = after-Inv-absent inv i lt owning (i ∷ rest) (λ j d a. a) (λ a. absurd (a.0 refl));
}

called-Next :
    {n : ℕ} {s : System} {line : List ℕ} {i t : ℕ}
    → Inv n s line
    → i < n
    → s.pc i ≡ awaiting t
    → difference t s.word.tail ≡ 0
    → Next n s i line (at s s.word i owning)
called-Next {n} {s} {line} {i} {t} inv lt here zero_ =
    let one : tickets (s.pc i) ≡ 1 = rw here refl in
    let first : IsFirst (s.pc i) s.word.tail =
      rw here (λ u small w. let fits = inv.tail_fits in omega arith) in
    let (rest, e) = front i line inv lt one first (length-le inv) in
    (line, stays, rw e (enter (rw e at inv) lt one))

won-Next :
    {n : ℕ} {s : System} {line : List ℕ} {i h : ℕ}
    → Inv n s line
    → i < n
    → s.pc i ≡ trying h
    → s.word.tail ≡ h
    → s.word.head ≡ h
    → Next n s i line (at s (record { tail = h; head = u16 (h + 1) }) i owning)
won-Next {n} {s} {line} {i} {h} inv lt here a b =
    let none = empty-line inv (a ∙ sym b) in
    let idle : tickets (s.pc i) ≡ 0 = rw here refl in
    (
      line ++ i ∷ [],
      joins,
      joins-Inv inv i lt idle owning _ refl (sym a) (ap (λ x. u16 (x + 1)) (sym b))
          (rw none ((rw (move_to_self s.pc i i owning refl) tt), tt)),
    )

ticket-Next :
    {n : ℕ} {s : System} {line : List ℕ} {i : ℕ}
    → Inv n s line
    → i < n
    → s.pc i ≡ outside
    → Next n s i line (
        at s (record { tail = s.word.tail; head = u16 (s.word.head + 1) }) i (awaiting s.word.head))
ticket-Next {n} {s} {line} {i} inv lt here =
    let idle : tickets (s.pc i) ≡ 0 = rw here refl in
    let p = awaiting s.word.head in
    (
      line ++ i ∷ [],
      joins,
      joins-Inv inv i lt idle p _ refl refl refl (
          IsLine-append (move_to s.pc i p) s.word.tail i line inv.tail_fits
            (IsLine-move_to s.pc i p s.word.tail line (not_in_line inv i lt idle) inv.ordered)
            (rw (move_to_self s.pc i i p refl) inv.counter)),
    )

released-Next :
    {n : ℕ} {s : System} {line : List ℕ} {i t : ℕ}
    → Inv n s line
    → i < n
    → s.pc i ≡ releasing t
    → Next n s i line (at s (record { tail = u16 (t + 1); head = s.word.head }) i outside)
released-Next {n} {s} {line} {i} {t} inv lt here =
    let one : tickets (s.pc i) ≡ 1 = rw here refl in
    let first : IsFirst (s.pc i) s.word.tail = rw here (λ u small w. absurd w) in
    let (rest, e) = front i line inv lt one first (length-le inv) in
    let inv' : Inv n s (i ∷ rest) = rw e at inv in
    let same : t ≡ s.word.tail = rw here at inv'.ordered.0 in
    (rest, leaves e, rw same (leaves-Inv inv' lt one))

pub Move-Next :
    {n : ℕ} {s : System} {line : List ℕ} (i : ℕ) {p q : Pc} {w : Word}
    → Inv n s line
    → i < n
    → s.pc i ≡ p
    → Move s.word p w q
    → Next n s i line (at s w i q)
Move-Next i inv lt here Move.try_load = keep _ inv lt here refl (λ u v. v) (λ v. v)
Move-Next i inv lt here (Move.try_wins a b) = won-Next inv lt here a b
Move-Next i inv lt here (Move.try_loses a) = keep _ inv lt here refl (λ u v. v) (λ v. v)
Move-Next i inv lt here Move.want_free = keep _ inv lt here refl (λ u v. v) (λ v. v)
Move-Next i inv lt here (Move.spin_busy a) = keep _ inv lt here refl (λ u v. v) (λ v. v)
Move-Next i inv lt here (Move.spin_free a) = keep _ inv lt here refl (λ u v. v) (λ v. v)
Move-Next i inv lt here Move.take_ticket = ticket-Next inv lt here
Move-Next i inv lt here (Move.called a) = called-Next inv lt here a
Move-Next i inv lt here (Move.not_called a) = keep _ inv lt here refl (λ u v. v) (λ v. v)
Move-Next i inv lt here (Move.back_off a) = keep _ inv lt here refl (λ u v. v) (λ v. v)
Move-Next i inv lt here (Move.look_again a) = keep _ inv lt here refl (λ u v. v) (λ v. v)
Move-Next i inv lt here Move.release_load = keep _ inv lt here refl (λ u v. v) (λ v. refl)
Move-Next i inv lt here Move.release_store = released-Next inv lt here
