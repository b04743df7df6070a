-- ===== src/Memory/Vas/Running.antt =====
-- `Execute` of beelzebub/src/memory/vas.cpp at an address of a well-formed space, in one region.
use beelzebub.Common.{
  ℕ, suc, ◌+◌, ◌^◌, ◌≤◌, ◌<◌, ◌≡◌, refl, sym, subst, inl, inr, List, true, false, not, ◌&&◌, ◌==◌,
  Bool-cases, Option-cases, u64, dec_lt, arith,
}
use beelzebub.Handles.{is_okay}
use beelzebub.Avl.Node.{Cell}
use beelzebub.Avl.Edit.{Allocator}
use beelzebub.Memory.Regions.{MemoryRegion, find_region}
use beelzebub.Memory.Vas.{Vas, OperationParameters, is_allocation}
use beelzebub.Memory.Vas.Execute.{execute, execute_at}
use beelzebub.Memory.Vas.Writes.{Executed}
use beelzebub.Memory.Vas.Chain.{AddressMap}
use beelzebub.Memory.Vas.Holding.{Laws}
use beelzebub.Memory.Vas.Space.{Implements, Around}
use beelzebub.Memory.Vas.Space
use beelzebub.Memory.Vas.Around.{IsEndless}
use beelzebub.Memory.Vas.Stepping.{execute_disposed, execute_outside, execute_once}
use beelzebub.Memory.Vas.Finding.{Spot, spot, find_region-around, find_region_outside}
use beelzebub.Memory.Vas.Executing.{
  Keeps, forget-Keeps, Performed, execute_at_refused, execute_at-Performed,
}

module _ {κ} {S : Type κ} {alloc : Allocator S} (laws : Laws alloc) (g : AddressMap) (lo hi : ℕ)
    (v : Vas S) (op : OperationParameters) (proper : op.address < u64 (op.address + op.size))
    (small : hi < 2 ^ 64) (dense : op.sparse ≡ false) where
  -- The region that the operation was in, and what it did to it.
  pub record Effect (r : Executed S) : Type κ where
    pub front : List (Cell MemoryRegion)
    pub cell : Cell MemoryRegion
    pub back : List (Cell MemoryRegion)
    pub around : Around laws g lo hi v front cell back
    pub low : cell.payload.range.start ≤ op.address
    pub inside : op.address < cell.payload.range.end
    pub performed :
        Performed laws op g lo hi v front cell back around low inside proper small dense
          ((r.0, r.2), 0)
    pub address : r.1 ≡ op.address

  module _ (fuel : ℕ) (fixed : (is_allocation op.manipulation && (op.address == 0)) ≡ false) where
    -- With memory that does not run out, a failure leaves the space as it was.
    pub execute_refused-Keeps :
        IsEndless alloc
        → Implements laws g lo hi v
        → is_okay (execute alloc (suc fuel) op v).0 ≡ false
        → Keeps v (execute alloc (suc fuel) op v).2
    execute_refused-Keeps endless i n = elim (Bool-cases (v.first == 0)) [
      | inl e ↦ rw (execute_disposed alloc v op fuel fixed e) (inl refl)
      | inr e ↦ elim (Option-cases (find_region alloc op.address v.tree)) [
        | inl f ↦ rw (execute_outside alloc v op fuel fixed e f) (inl refl)
        | inr (c, f) ↦ refused_at e (elim (dec_lt op.address lo) [
          | yes l ↦ absurd (let o = find_region_outside laws g lo hi v i op.address (inl l) in cc)
          | no l ↦ elim (dec_lt op.address hi) [
            | no h ↦
                absurd (
                  let o = find_region_outside laws g lo hi v i op.address (inr (omega arith)) in cc)
            | yes h ↦ spot laws g lo hi v i op.address (omega arith) h
          ]
        ])
      ]
    ]
      where
        refused_at :
            (v.first == 0) ≡ false
            → Spot i.cells op.address
            → Keeps v (execute alloc (suc fuel) op v).2
        refused_at e s =
            let w = Space.around laws g lo hi v i s.front s.cell s.back s.whole in
            let found =
              find_region-around laws g lo hi v s.front s.cell s.back w op.address s.low s.inside in
            let done = execute_at alloc op s.cell v in
            elim (Bool-cases (is_okay done.0.0)) [
              | inl y ↦
                  let p =
                    execute_at-Performed laws op g lo hi v s.front s.cell s.back w s.low s.inside
                      proper small dense y in
                  let stop : (not (done.1 == 0) && is_okay done.0.0) ≡ false =
                    let e = p.ends in ground arith in
                  absurd (
                    let q : is_okay done.0.0 ≡ false =
                      subst (λ r. is_okay r.0 ≡ false)
                        (execute_once alloc v op fuel fixed s.cell e found stop) n in
                    ground arith)
              | inr bad ↦
                  let stop : (not (done.1 == 0) && is_okay done.0.0) ≡ false = ground arith in
                  rw
                    (
                      execute_once alloc v op fuel fixed s.cell e found stop,
                      execute_at_refused laws op g lo hi v s.front s.cell s.back w s.low s.inside
                          proper small dense endless bad,
                    )
                    (forget-Keeps s.cell.address v)
            ]

    module _ (i : Implements laws g lo hi v)
        (okay : is_okay (execute alloc (suc fuel) op v).0 ≡ true) where
      unlike : {r : Executed S} → execute alloc (suc fuel) op v ≡ r → is_okay r.0 ≡ false → ⊥
      unlike {r} e n =
          let q : is_okay r.0 ≡ true = subst (λ r. is_okay r.0 ≡ true) e okay in ground arith

      not_disposed : (v.first == 0) ≡ false
      not_disposed = elim (Bool-cases (v.first == 0)) [
        | inl e ↦ absurd (unlike (execute_disposed alloc v op fuel fixed e) refl)
        | inr e ↦ e
      ]

      okay_low : lo ≤ op.address
      okay_low = elim (dec_lt op.address lo) [
        | yes l ↦ absurd (
            unlike
              (execute_outside alloc v op fuel fixed not_disposed
                (find_region_outside laws g lo hi v i op.address (inl l)))
              refl)
        | no l ↦ omega arith
      ]

      okay_high : op.address < hi
      okay_high = elim (dec_lt op.address hi) [
        | yes l ↦ l
        | no l ↦ absurd (
            unlike
              (execute_outside alloc v op fuel fixed not_disposed
                (find_region_outside laws g lo hi v i op.address (inr (omega arith))))
              refl)
      ]

      pub execute-Effect : Effect (execute alloc (suc fuel) op v)
      execute-Effect =
          let s = spot laws g lo hi v i op.address okay_low okay_high in
          let w = Space.around laws g lo hi v i s.front s.cell s.back s.whole in
          let found =
            find_region-around laws g lo hi v s.front s.cell s.back w op.address s.low s.inside in
          let done = execute_at alloc op s.cell v in
          elim (Bool-cases (is_okay done.0.0)) [
            | inl y ↦
                let p =
                  execute_at-Performed laws op g lo hi v s.front s.cell s.back w s.low s.inside
                    proper small dense y in
                let stop : (not (done.1 == 0) && is_okay done.0.0) ≡ false =
                  let e = p.ends in ground arith in
                subst Effect
                  (sym (execute_once alloc v op fuel fixed s.cell not_disposed found stop))
                  (record {
                    front = s.front;
                    cell = s.cell;
                    back = s.back;
                    around = w;
                    low = s.low;
                    inside = s.inside;
                    performed = record { fits = p.fits; ends = refl; outcome = p.outcome };
                    address = refl;
                  })
            | inr n ↦
                let stop : (not (done.1 == 0) && is_okay done.0.0) ≡ false = ground arith in
                absurd
                  (unlike (execute_once alloc v op fuel fixed s.cell not_disposed found stop) n)
          ]
