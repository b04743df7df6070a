-- ===== src/Sync/Ticket/Line.antt =====
-- The threads that hold a ticket of ticket.lock.hpp stand in a line, whose front is served.
use beelzebub.Common.{
  ℕ, ◌+◌, ◌^◌, ◌≤◌, ◌<◌, ◌≡◌, sym, ap, subst, ◌∙◌, List, [], ◌∷◌, ◌++◌, length, All, IsAbsent,
  IsDistinct, ℕ_discrete, arith,
}
use beelzebub.Sync.Threads.{move_to, move_to_self, move_to_other, sum_over}
use beelzebub.Sync.Ticket.{
  u16, Pc, outside, trying, spinning, awaiting, backing_off, owning, releasing, System,
}

abbrev pub tickets : Pc → ℕ
tickets (awaiting t) = 1
tickets (backing_off t d) = 1
tickets owning = 1
tickets (releasing t) = 1
tickets _ = 0

abbrev pub WaitsFor : Pc → ℕ → Type 0
WaitsFor (awaiting t) u = t ≡ u
WaitsFor (backing_off t d) u = t ≡ u
WaitsFor _ u = ⊥

-- The front of the line has the ticket `tail`, or owns the lock.
abbrev pub IsServed : Pc → ℕ → Type 0
IsServed owning tail = Unit {0}
IsServed (releasing t) tail = t ≡ tail
IsServed p tail = WaitsFor p tail

abbrev pub IsBehind : (ℕ → Pc) → ℕ → List ℕ → Type 0
IsBehind pc t [] = Unit {0}
IsBehind pc t (i ∷ is) = WaitsFor (pc i) (u16 t) × IsBehind pc (t + 1) is

abbrev pub IsLine : (ℕ → Pc) → ℕ → List ℕ → Type 0
IsLine pc t [] = Unit {0}
IsLine pc t (i ∷ is) = IsServed (pc i) t × IsBehind pc (t + 1) is

pub record Inv (n : ℕ) (s : System) (line : List ℕ) : Type 0 where
  pub few : n < 2 ^ 16
  pub tail_fits : s.word.tail < 2 ^ 16
  pub counter : s.word.head ≡ u16 (s.word.tail + length line)
  pub count : length line ≡ sum_over tickets n s.pc
  pub inside : All (λ i. i < n) line
  pub distinct : IsDistinct line
  pub ordered : IsLine s.pc s.word.tail line
  pub absent : (i : ℕ) → i < n → IsAbsent i line → tickets (s.pc i) ≡ 0

-- How a step changes the line.
pub data Queue (i : ℕ) (line : List ℕ) : List ℕ → Type 0 where
  stays : Queue i line line
  joins : Queue i line (line ++ i ∷ [])
  leaves : {rest : List ℕ} → line ≡ i ∷ rest → Queue i line rest

-- A thread outside the line does not matter to it.
pub IsBehind-move_to :
    (pc : ℕ → Pc) (i : ℕ) (p : Pc) (t : ℕ) (is : List ℕ)
    → IsAbsent i is
    → IsBehind pc t is
    → IsBehind (move_to pc i p) t is
IsBehind-move_to pc i p t [] a b = tt
IsBehind-move_to pc i p t (j ∷ js) a b = (ground arith, IsBehind-move_to pc i p (t + 1) js a.1 b.1)

pub IsLine-move_to :
    (pc : ℕ → Pc) (i : ℕ) (p : Pc) (t : ℕ) (is : List ℕ)
    → IsAbsent i is
    → IsLine pc t is
    → IsLine (move_to pc i p) t is
IsLine-move_to pc i p t [] a b = tt
IsLine-move_to pc i p t (j ∷ js) a b = (ground arith, IsBehind-move_to pc i p (t + 1) js a.1 b.1)

-- A thread that waits for no other ticket than the front's is not behind it.
abbrev pub IsFirst : Pc → ℕ → Type 0
IsFirst p tail = (u : ℕ) → u < 2 ^ 16 → WaitsFor p u → u ≡ tail

pub served-IsFirst : (p : Pc) (tail : ℕ) → IsServed p tail → IsFirst p tail
served-IsFirst outside tail h u lt w = absurd w
served-IsFirst (trying t) tail h u lt w = absurd w
served-IsFirst spinning tail h u lt w = absurd w
served-IsFirst (awaiting t) tail h u lt w = sym w ∙ h
served-IsFirst (backing_off t d) tail h u lt w = sym w ∙ h
served-IsFirst owning tail h u lt w = absurd w
served-IsFirst (releasing t) tail h u lt w = absurd w

behind_apart :
    (pc : ℕ → Pc) (i tail gap : ℕ) (is : List ℕ)
    → IsFirst (pc i) tail
    → tail < 2 ^ 16
    → 0 < gap
    → gap + length is ≤ 2 ^ 16
    → IsBehind pc (tail + gap) is
    → IsAbsent i is
behind_apart pc i tail gap [] w t g r b = tt
behind_apart pc i tail gap (j ∷ js) w t g r b = (
  (λ e.
      let u =
        w (u16 (tail + gap)) (omega arith)
          (subst (λ x. WaitsFor (pc x) (u16 (tail + gap))) e b.0) in
      omega arith),
  behind_apart pc i tail (gap + 1) js w t (omega arith) (omega arith)
      (subst (λ x. IsBehind pc x js) (omega arith) b.1),
)

-- Tickets count modulo 2 ^ 16.
IsBehind-again :
    (pc : ℕ → Pc) (t u : ℕ) (is : List ℕ) → u16 t ≡ u16 u → IsBehind pc t is → IsBehind pc u is
IsBehind-again pc t u [] e b = tt
IsBehind-again pc t u (i ∷ is) e b =
    (subst (WaitsFor (pc i)) e b.0, IsBehind-again pc (t + 1) (u + 1) is (omega arith) b.1)

waiting-IsServed : (p : Pc) (u : ℕ) → WaitsFor p u → IsServed p u
waiting-IsServed (awaiting t) u w = w
waiting-IsServed (backing_off t d) u w = w
waiting-IsServed outside u w = absurd w
waiting-IsServed (trying t) u w = absurd w
waiting-IsServed spinning u w = absurd w
waiting-IsServed owning u w = absurd w
waiting-IsServed (releasing t) u w = absurd w

pub IsLine-after :
    (pc : ℕ → Pc) (t : ℕ) (is : List ℕ) → IsBehind pc (t + 1) is → IsLine pc (u16 (t + 1)) is
IsLine-after pc t [] b = tt
IsLine-after pc t (i ∷ is) b = (
  waiting-IsServed (pc i) (u16 (t + 1)) b.0,
  IsBehind-again pc (t + 1 + 1) (u16 (t + 1) + 1) is (omega arith) b.1,
)

IsBehind-append :
    (pc : ℕ → Pc) (t i : ℕ) (is : List ℕ)
    → IsBehind pc t is
    → WaitsFor (pc i) (u16 (t + length is))
    → IsBehind pc t (is ++ i ∷ [])
IsBehind-append pc t i [] b w = (subst (λ x. WaitsFor (pc i) (u16 x)) (omega arith) w, tt)
IsBehind-append pc t i (j ∷ js) b w = (
  b.0,
  IsBehind-append pc (t + 1) i js b.1 (subst (λ x. WaitsFor (pc i) (u16 x)) (omega arith) w),
)

pub IsLine-append :
    (pc : ℕ → Pc) (t i : ℕ) (is : List ℕ)
    → t < 2 ^ 16
    → IsLine pc t is
    → WaitsFor (pc i) (u16 (t + length is))
    → IsLine pc t (is ++ i ∷ [])
IsLine-append pc t i [] small b w =
    (waiting-IsServed (pc i) t (subst (WaitsFor (pc i)) (omega arith) w), tt)
IsLine-append pc t i (j ∷ js) small b w = (
  b.0,
  IsBehind-append pc (t + 1) i js b.1 (subst (λ x. WaitsFor (pc i) (u16 x)) (omega arith) w),
)

-- A move that keeps a thread's ticket keeps the line.
module _ (pc : ℕ → Pc) (i : ℕ) (p : Pc) (kept : (u : ℕ) → WaitsFor (pc i) u → WaitsFor p u) where
  waits_same : (j u : ℕ) → WaitsFor (pc j) u → WaitsFor (move_to pc i p j) u
  waits_same j u w = elim (ℕ_discrete i j) [
    | yes e ↦ rw (move_to_self pc i j p e) (kept u (subst (λ x. WaitsFor (pc x) u) (sym e) w))
    | no n ↦ rw (move_to_other pc i j p n) w
  ]

  IsBehind-same : (t : ℕ) (is : List ℕ) → IsBehind pc t is → IsBehind (move_to pc i p) t is
  IsBehind-same t [] b = tt
  IsBehind-same t (j ∷ js) b = (waits_same j (u16 t) b.0, IsBehind-same (t + 1) js b.1)

  pub IsLine-same :
      (t : ℕ) (is : List ℕ)
      → (IsServed (pc i) t → IsServed p t)
      → IsLine pc t is
      → IsLine (move_to pc i p) t is
  IsLine-same t [] q b = tt
  IsLine-same t (j ∷ js) q b = (
    (elim (ℕ_discrete i j) [
      | yes e ↦ rw (move_to_self pc i j p e) (q (subst (λ x. IsServed (pc x) t) (sym e) b.0))
      | no n ↦ rw (move_to_other pc i j p n) b.0
    ]),
    IsBehind-same (t + 1) js b.1,
  )

-- A ticket holder that is not behind the front is the front.
pub front :
    {n : ℕ} {s : System} (i : ℕ) (line : List ℕ)
    → Inv n s line
    → i < n
    → tickets (s.pc i) ≡ 1
    → IsFirst (s.pc i) s.word.tail
    → length line ≤ n
    → (rest : List ℕ) × (line ≡ i ∷ rest)
front i [] inv lt one f b = absurd (let none = inv.absent i lt tt in omega arith)
front {n} {s} i (j ∷ js) inv lt one f b = elim (ℕ_discrete j i) [
  | yes e ↦ (js, ap (λ x. x ∷ js) e)
  | no d ↦ absurd (
      let few = inv.few in
      let none = inv.absent i lt (
        d,
        behind_apart s.pc i s.word.tail 1 js f inv.tail_fits (omega arith) (omega arith)
            inv.ordered.1,
      ) in
      omega arith)
]

-- A thread without a ticket is not in the line.
pub line-IsAbsent :
    (pc : ℕ → Pc) (t i : ℕ) (is : List ℕ) → tickets (pc i) ≡ 0 → IsLine pc t is → IsAbsent i is
line-IsAbsent pc t i [] z b = tt
line-IsAbsent pc t i (j ∷ js) z b =
    ((λ e. served (pc j) t (subst (λ x. tickets (pc x) ≡ 0) (sym e) z) b.0), behind (t + 1) js b.1)
  where
    served : (p : Pc) (u : ℕ) → tickets p ≡ 0 → IsServed p u → ⊥
    served p u z w = ground arith

    waiting : (p : Pc) (u : ℕ) → tickets p ≡ 0 → WaitsFor p u → ⊥
    waiting p u z w = ground arith

    behind : (u : ℕ) (ks : List ℕ) → IsBehind pc u ks → IsAbsent i ks
    behind u [] b = tt
    behind u (k ∷ ks) b = (
      (λ e. waiting (pc k) (u16 u) (subst (λ x. tickets (pc x) ≡ 0) (sym e) z) b.0),
      behind (u + 1) ks b.1,
    )
