-- ===== src/Memory/Vas/Executing.antt =====
-- `Execute` of beelzebub/src/memory/vas.cpp from the region that it finds on.
use beelzebub.Common.{
  ℕ, ◌+◌, ◌^◌, ◌≤◌, ◌<◌, ◌≡◌, refl, sym, subst, ap, ◌⊎◌, inl, inr, List, Bool, true, false, not,
  ◌&&◌, ltb, ◌==◌, Bool-cases, ltb→ge, if◌then◌else◌, u64, arith,
}
use beelzebub.Handles
use beelzebub.Handles.{is_okay, failed, argument_out_of_range, page_free}
use beelzebub.Avl.Node.{Cell}
use beelzebub.Avl.Edit.{Allocator}
use beelzebub.Memory.Regions.{MemoryRegion}
use beelzebub.Memory.Pointers.{load}
use beelzebub.Memory.Vas.{Vas, OperationParameters, DescriptorCheckResults, check, permanent}
use beelzebub.Memory.Vas.Execute.{execute_at, manipulate}
use beelzebub.Memory.Vas.Writes.{Result, forget}
use beelzebub.Memory.Vas.Chain.{AddressMap}
use beelzebub.Memory.Vas.Holding.{Laws}
use beelzebub.Memory.Vas.Space.{Implements, Around}
use beelzebub.Memory.Vas.Updates.{purpose, updated}
use beelzebub.Memory.Vas.Around.{IsEndless}
use beelzebub.Memory.Vas.Checks.{check-failure}
use beelzebub.Memory.Vas.Manipulating.{low_of, high_of, manipulate-Leaves}

-- The ways through `Execute` for the region found.
abbrev pub choose {ℓ} :
    {A : Type ℓ} (beyond sparse accepted permanent tolerant : Bool)
    (outside refused done kept wrong : A) (rest : ℕ)
    → A × ℕ
choose beyond sparse accepted permanent tolerant outside refused done kept wrong rest =
    let continuation = if beyond then rest else 0 in
    if beyond && not sparse
    then (outside, 0)
    else if accepted
    then if permanent then (refused, 0) else (done, continuation)
    else if tolerant
    then (kept, continuation)
    else (wrong, 0)

-- Without `Sparse`, two of them can succeed.
choose-cases {ℓ} :
    {A : Type ℓ} (beyond sparse accepted permanent tolerant : Bool)
    (outside refused done kept wrong : A) (rest : ℕ)
    → sparse ≡ false
    → let r =
        choose beyond sparse accepted permanent tolerant outside refused done kept wrong rest in
      (r.0 ≡ outside)
      ⊎ ((r.0 ≡ refused)
          ⊎ ((r.0 ≡ wrong)
              ⊎ ((beyond ≡ false)
                  × (((accepted ≡ true) × (r ≡ (done, 0)))
                      ⊎ ((accepted ≡ false) × (tolerant ≡ true) × (r ≡ (kept, 0)))))))
choose-cases true true a p t o f d k w r e = absurd (ground arith)
choose-cases true false a p t o f d k w r e = inl refl
choose-cases false s true true t o f d k w r e = inr (inl refl)
choose-cases false s true false t o f d k w r e = inr (inr (inr (refl, inl (refl, refl))))
choose-cases false s false p true o f d k w r e = inr (inr (inr (refl, inr (refl, refl, refl))))
choose-cases false s false p false o f d k w r e = inr (inr (inl refl))

-- The check that `Execute` makes of a region.
abbrev pub checked {κ} :
    {S : Type κ} → OperationParameters → MemoryRegion → Vas S → DescriptorCheckResults
checked op reg v = check op reg (load reg.prev v.tree) (load reg.next v.tree)

-- A space with the same tree and first region, in which at most `LastSearched` has become null.
abbrev pub Keeps {κ} : {S : Type κ} → (before after : Vas S) → Type κ
Keeps before after = (after ≡ before) ⊎ (after ≡ record before { last_searched = 0 })

pub forget-Keeps {κ} : {S : Type κ} (a : ℕ) (v : Vas S) → Keeps v (forget a v)
forget-Keeps a v = elim (Bool-cases (v.last_searched == a)) [
  | inl e ↦ rw e (inr refl)
  | inr e ↦ rw e (inl refl)
]

module _ {κ} {S : Type κ} {alloc : Allocator S} (laws : Laws alloc) where
  pub forget-Around :
      (g : AddressMap) (lo hi : ℕ) (v : Vas S) (xs : List (Cell MemoryRegion))
      (c : Cell MemoryRegion) (ys : List (Cell MemoryRegion)) (a : ℕ)
      → Around laws g lo hi v xs c ys
      → Around laws g lo hi (forget a v) xs c ys
  forget-Around g lo hi v xs c ys a w = elim (Bool-cases (v.last_searched == a)) [
    | inl e ↦
        let h = w.holding in
        rw e record {
          last = w.last;
          border = w.border;
          final = w.final;
          holding = record {
            held = h.held;
            distinct = h.distinct;
            alive = h.alive;
            balanced = h.balanced;
          };
          first = w.first;
          front = w.front;
          here = w.here;
          back = w.back;
        }
    | inr e ↦ rw e w
  ]

  forget-tree : (a : ℕ) (v : Vas S) → (forget a v).tree ≡ v.tree
  forget-tree a v = elim (Bool-cases (v.last_searched == a)) [
    | inl e ↦ rw e refl
    | inr e ↦ rw e refl
  ]

  module _ (op : OperationParameters) (g : AddressMap) (lo hi : ℕ) (v : Vas S)
      (xs : List (Cell MemoryRegion)) (c : Cell MemoryRegion) (ys : List (Cell MemoryRegion))
      (w : Around laws g lo hi v xs c ys) (low : c.payload.range.start ≤ op.address)
      (inside : op.address < c.payload.range.end) (proper : op.address < u64 (op.address + op.size))
      (small : hi < 2 ^ 64) (dense : op.sparse ≡ false) where
    abbrev d : DescriptorCheckResults
    d = checked op c.payload (forget c.address v)

    abbrev end_addr : ℕ
    end_addr = u64 (op.address + op.size)

    -- What is left of a region that was not accepted, or was.
    pub record Performed (r : Result S × ℕ) : Type κ where
      pub fits : end_addr ≤ c.payload.range.end
      pub ends : r.1 ≡ 0
      pub outcome :
          ((d.accepted ≡ true)
            × Implements laws
                (updated g
                  (low_of op c.payload d)
                  (high_of op c.payload d)
                  (purpose op.manipulation))
                lo
                hi
                r.0.1)
          ⊎ ((d.accepted ≡ false) × (op.tolerant ≡ true) × (r.0.1 ≡ forget c.address v))

    performed :
        d.accepted ≡ true
        → is_okay
            (manipulate alloc op.manipulation op.address end_addr c.address c.payload d
              (forget c.address v)).0
          ≡ true
        → end_addr ≤ c.payload.range.end
        → Performed (
          manipulate alloc op.manipulation op.address end_addr c.address c.payload d
              (forget c.address v),
          0,
        )
    performed f okay fits = record {
      fits = fits;
      ends = refl;
      outcome = inl (
        f,
        (manipulate-Leaves laws op g lo hi (forget c.address v) xs c ys
            (forget-Around g lo hi v xs c ys c.address w) low inside proper small (λ _. fits)
            (inl okay)).1,
      );
    }

    pub execute_at-Performed :
        is_okay (execute_at alloc op c v).0.0 ≡ true → Performed (execute_at alloc op c v)
    unfolding execute_at
    execute_at-Performed okay =
        let z = forget c.address v in
        let done = manipulate alloc op.manipulation op.address end_addr c.address c.payload d z in
        elim (choose-cases (ltb c.payload.range.end end_addr) op.sparse d.accepted
          (permanent c.payload.type) op.tolerant (argument_out_of_range, z) (failed, z) done
          (Handles.okay, z) (d.failure_result, z) c.payload.range.end dense) [
            | inl e ↦ absurd (unlike e refl)
            | inr (inl e) ↦ absurd (unlike e refl)
            | inr (inr (inl e)) ↦ absurd (
                unlike e (
                  rw
                    (check-failure op c.payload (load c.payload.prev z.tree)
                      (load c.payload.next z.tree))
                    refl))
            | inr (inr (inr (b, inl (f, e)))) ↦
                subst Performed (sym e)
                  (performed f (subst (λ r. is_okay r.0.0 ≡ true) e okay) (ltb→ge _ _ b))
            | inr (inr (inr (b, inr (f, t, e)))) ↦
                subst Performed (sym e)
                  (record { fits = ltb→ge _ _ b; ends = refl; outcome = inr (f, t, refl) })
          ]
      where
        unlike : {r : Result S} → (execute_at alloc op c v).0 ≡ r → is_okay r.0 ≡ false → ⊥
        unlike {r} e n =
            let q : is_okay r.0 ≡ true = subst (λ r. is_okay r.0 ≡ true) e okay in ground arith

    -- With memory that does not run out, an operation that fails has changed no region.
    pub execute_at_refused :
        IsEndless alloc
        → is_okay (execute_at alloc op c v).0.0 ≡ false
        → (execute_at alloc op c v).0.1 ≡ forget c.address v
    unfolding execute_at
    execute_at_refused endless n =
        let z = forget c.address v in
        let done = manipulate alloc op.manipulation op.address end_addr c.address c.payload d z in
        elim (choose-cases (ltb c.payload.range.end end_addr) op.sparse d.accepted
          (permanent c.payload.type) op.tolerant (argument_out_of_range, z) (failed, z) done
          (Handles.okay, z) (d.failure_result, z) c.payload.range.end dense) [
            | inl e ↦ ap (λ r. r.1) e
            | inr (inl e) ↦ ap (λ r. r.1) e
            | inr (inr (inl e)) ↦ ap (λ r. r.1) e
            | inr (inr (inr (b, inl (f, e)))) ↦ absurd (
                unlike (ap (λ r. r.0) e)
                  (manipulate-Leaves laws op g lo hi z xs c ys
                    (forget-Around g lo hi v xs c ys c.address w) low inside proper small
                    (λ _. ltb→ge _ _ b) (inr endless)).0)
            | inr (inr (inr (b, inr (f, t, e)))) ↦ absurd (unlike (ap (λ r. r.0) e) refl)
          ]
      where
        unlike : {r : Result S} → (execute_at alloc op c v).0 ≡ r → is_okay r.0 ≡ true → ⊥
        unlike {r} e y =
            let q : is_okay r.0 ≡ false = subst (λ r. is_okay r.0 ≡ false) e n in ground arith
