-- ===== src/Sync/Threads.antt =====
-- What a family of threads adds up to, and how one thread's step changes it.
use beelzebub.Common.{
  ℕ, zero, suc, ◌+◌, ◌≤◌, ◌<◌, ◌≡◌, refl, ◌≢◌, ◌==◌, if◌then◌else◌, dec_lt, arith,
}

-- Thread `i` moves on to `p`.
abbrev pub move_to {ℓ} : {A : Type ℓ} → (ℕ → A) → ℕ → A → ℕ → A
move_to pc i p j = if i == j then p else pc j

pub move_to_self {ℓ} : {A : Type ℓ} (pc : ℕ → A) (i j : ℕ) (p : A) → i ≡ j → move_to pc i p j ≡ p
move_to_self pc i j p e = ground arith

pub move_to_other {ℓ} :
    {A : Type ℓ} (pc : ℕ → A) (i j : ℕ) (p : A) → i ≢ j → move_to pc i p j ≡ pc j
move_to_other pc i j p n = ground arith

module _ {ℓ} {A : Type ℓ} where
  -- The sum of a weight over the first `n` threads.
  unfoldable pub sum_over : (A → ℕ) → ℕ → (ℕ → A) → ℕ
  sum_over weight zero pc = 0
  sum_over weight (suc n) pc = weight (pc n) + sum_over weight n pc

  beyond :
      (weight : A → ℕ) (n : ℕ) (pc : ℕ → A) (i : ℕ) (p : A)
      → n ≤ i
      → sum_over weight n (move_to pc i p) ≡ sum_over weight n pc
  unfolding sum_over
  beyond weight zero pc i p h = refl
  beyond weight (suc n) pc i p h = ground (arith, beyond weight n pc i p)

  pub sum_over-move_to :
      (weight : A → ℕ) (n : ℕ) (pc : ℕ → A) (i : ℕ) (p : A)
      → i < n
      → sum_over weight n (move_to pc i p) + weight (pc i) ≡ sum_over weight n pc + weight p
  unfolding sum_over
  sum_over-move_to weight zero pc i p h = absurd (omega arith)
  sum_over-move_to weight (suc n) pc i p h = elim (dec_lt i n) [
    | yes lt ↦ ground (arith, sum_over-move_to weight n pc i p lt)
    | no ge ↦ ground (arith, beyond weight n pc i p)
  ]

  pub weight-le-sum_over :
      (weight : A → ℕ) (n : ℕ) (pc : ℕ → A) (i : ℕ) → i < n → weight (pc i) ≤ sum_over weight n pc
  unfolding sum_over
  weight-le-sum_over weight zero pc i h = absurd (omega arith)
  weight-le-sum_over weight (suc n) pc i h = elim (dec_lt i n) [
    | yes lt ↦ omega (arith, weight-le-sum_over weight n pc i lt)
    | no ge ↦ let same : i ≡ n = omega arith in rw same (omega arith)
  ]

  -- Two weights that make at most one together add up to at most one for each thread.
  pub sum_over_two-le :
      (v w : A → ℕ) (n : ℕ) (pc : ℕ → A)
      → ((p : A) → v p + w p ≤ 1)
      → sum_over v n pc + sum_over w n pc ≤ n
  unfolding sum_over
  sum_over_two-le v w zero pc h = omega arith
  sum_over_two-le v w (suc n) pc h = omega (arith, h (pc n), sum_over_two-le v w n pc h)

  -- The sum at threads that are all in one state of weight 0.
  pub sum_over-zero :
      (weight : A → ℕ) (n : ℕ) (p : A) → weight p ≡ 0 → sum_over weight n (λ _. p) ≡ 0
  unfolding sum_over
  sum_over-zero weight zero p h = refl
  sum_over-zero weight (suc n) p h = omega (arith, sum_over-zero weight n p h)

  -- Two different threads weigh at most what all of them do.
  pub two-le-sum_over :
      (weight : A → ℕ) (n : ℕ) (pc : ℕ → A) (i j : ℕ)
      → i < n
      → j < n
      → i ≢ j
      → weight (pc i) + weight (pc j) ≤ sum_over weight n pc
  unfolding sum_over
  two-le-sum_over weight zero pc i j p q d = absurd (omega arith)
  two-le-sum_over weight (suc n) pc i j p q d = elim (dec_lt i n) [
    | yes i_lt ↦ elim (dec_lt j n) [
      | yes j_lt ↦ omega (arith, two-le-sum_over weight n pc i j i_lt j_lt d)
      | no j_ge ↦
          let same : j ≡ n = omega arith in
          rw same (omega (arith, weight-le-sum_over weight n pc i i_lt))
    ]
    | no i_ge ↦
        let same : i ≡ n = omega arith in
        rw same (omega (arith, weight-le-sum_over weight n pc j (omega arith)))
  ]
