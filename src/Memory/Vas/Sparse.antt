-- ===== src/Memory/Vas/Sparse.antt =====
-- A sparse `Vas::Free` of beelzebub/src/memory/vas.cpp over any number of regions.
use beelzebub.Common.{
  ℕ, zero, suc, ◌+◌, ◌-◌, ◌^◌, ◌≤◌, ◌<◌, ◌≡◌, refl, sym, subst, ap, ◌∙◌, inl, inr, Bool, true,
  false, not, ◌&&◌, ◌==◌, ==_differ, Bool-cases, dec_lt, arith,
}
use beelzebub.Handles.{okay, failed, is_okay}
use beelzebub.Avl.Edit.{Allocator}
use beelzebub.Memory.Vas.{Vas, OperationParameters, free_content}
use beelzebub.Memory.Vas.Writes.{Executed}
use beelzebub.Memory.Vas.Execute.{execute, execute_at}
use beelzebub.Memory.Vas.Calls.{free_operation, free}
use beelzebub.Memory.Vas.Chain.{AddressMap, chain_le}
use beelzebub.Memory.Vas.Holding.{Laws}
use beelzebub.Memory.Vas.Space.{Implements, Around}
use beelzebub.Memory.Vas.Space
use beelzebub.Memory.Vas.Finding.{Spot, spot, find_region-around, find_region_outside}
use beelzebub.Memory.Vas.Stepping.{
  execute_spent, execute_disposed, execute_outside, execute_once, execute_on,
}
use beelzebub.Memory.Vas.Sweeping.{IsSwept, execute_at-Swept}

abbrev sweep : (start_size vaddr size : ℕ) → Bool → OperationParameters
sweep start_size vaddr size tolerant = record (free_operation vaddr size true tolerant) {
  start_size = start_size;
}

IsSwept-join :
    (g h k : AddressMap) (start mid finish : ℕ)
    → start ≤ mid
    → IsSwept g h start finish
    → IsSwept h k mid finish
    → IsSwept g k start finish
IsSwept-join g h k start mid finish l p q = record {
  only = λ a. elim (q.only a) [
    | inr e ↦ inr e
    | inl e ↦ elim (p.only a) [ inl f ↦ inl (e ∙ f) | inr f ↦ inr (ap (λ w. w.0) e ∙ f) ]
  ];
  below = λ a b. q.below a (omega arith) ∙ p.below a b;
  above = λ a b. q.above a b ∙ p.above a b;
}

module _ {κ} {S : Type κ} {alloc : Allocator S} (laws : Laws alloc) (lo hi : ℕ) where
  -- The whole range is free, and little else has changed.
  pub record Cleared (g : AddressMap) (vaddr size : ℕ) (v : Vas S) : Type 0 where
    pub map : AddressMap
    pub now : Implements laws map lo hi v
    pub within : (lo ≤ vaddr) × (vaddr + size ≤ hi)
    pub swept : IsSwept g map vaddr (vaddr + size)
    pub free : (a : ℕ) → vaddr ≤ a → a < vaddr + size → (map a).0 ≡ free_content

module _ {κ} {S : Type κ} {alloc : Allocator S} (laws : Laws alloc) (lo hi : ℕ)
    (small : hi < 2 ^ 64) (start_size : ℕ) (tolerant : Bool) where
  abbrev IsClearing : ℕ → Type κ
  IsClearing fuel =
      (g : AddressMap) (v : Vas S) (vaddr size : ℕ)
      → Implements laws g lo hi v
      → 0 < size
      → vaddr + size < 2 ^ 64
      → is_okay (execute alloc fuel (sweep start_size vaddr size tolerant) v).0 ≡ true
      → Cleared laws lo hi g vaddr size
          (execute alloc fuel (sweep start_size vaddr size tolerant) v).2

  execute-Cleared : (fuel : ℕ) → IsClearing fuel
  execute-Cleared zero g v vaddr size i some_size fits y = absurd (
      let q : is_okay failed ≡ true =
        subst (λ r. is_okay r.0 ≡ true)
          (execute_spent alloc v (sweep start_size vaddr size tolerant)) y in
      ground arith)
  execute-Cleared (suc fuel) g v vaddr size i some_size fits y =
      let op = sweep start_size vaddr size tolerant in
      elim (Bool-cases (v.first == 0)) [
        | inl e ↦ absurd (unlike (execute_disposed alloc v op fuel refl e) refl)
        | inr e ↦ elim (dec_lt vaddr lo) [
          | yes l ↦ absurd (
              unlike
                (execute_outside alloc v op fuel refl e
                  (find_region_outside laws g lo hi v i vaddr (inl l)))
                refl)
          | no l ↦ elim (dec_lt vaddr hi) [
            | no h ↦ absurd (
                unlike
                  (execute_outside alloc v op fuel refl e
                    (find_region_outside laws g lo hi v i vaddr (inr (omega arith))))
                  refl)
            | yes h ↦ inside (execute-Cleared fuel) e (spot laws g lo hi v i vaddr (omega arith) h)
          ]
        ]
      ]
    where
      unlike :
          {r : Executed S}
          → execute alloc (suc fuel) (sweep start_size vaddr size tolerant) v ≡ r
          → is_okay r.0 ≡ false
          → ⊥
      unlike {r} e n =
          let q : is_okay r.0 ≡ true = subst (λ r. is_okay r.0 ≡ true) e y in ground arith

      inside :
          IsClearing fuel
          → (v.first == 0) ≡ false
          → Spot i.cells vaddr
          → Cleared laws lo hi g vaddr size
              (execute alloc (suc fuel) (sweep start_size vaddr size tolerant) v).2
      inside again e s =
          let op = sweep start_size vaddr size tolerant in
          let w = Space.around laws g lo hi v i s.front s.cell s.back s.whole in
          let found =
            find_region-around laws g lo hi v s.front s.cell s.back w vaddr s.low s.inside in
          let done = execute_at alloc op s.cell v in
          let end = s.cell.payload.range.end in
          let start = w.here.start in
          let low = s.low in
          let in_it = s.inside in
          let front = chain_le _ _ _ s.front _ _ _ w.front in
          let back = chain_le _ _ _ s.back _ _ _ w.back in
          elim (Bool-cases (is_okay done.0.0)) [
            | inr n ↦
                let stop : (not (done.1 == 0) && is_okay done.0.0) ≡ false = ground arith in
                absurd (unlike (execute_once alloc v op fuel refl s.cell e found stop) n)
            | inl t ↦
                let sw =
                  execute_at-Swept laws g lo hi v small start_size vaddr size tolerant some_size
                    fits s.front s.cell s.back w low in_it t in
                elim sw.goes_on [
                  | inl (q, fit) ↦
                      let stop : (not (done.1 == 0) && is_okay done.0.0) ≡ false = ground arith in
                      subst (λ r. Cleared laws lo hi g vaddr size r.2)
                        (sym (execute_once alloc v op fuel refl s.cell e found stop))
                        (record {
                          map = sw.map;
                          now = sw.now;
                          within = (omega arith, omega arith);
                          swept = sw.swept;
                          free = λ a x y. sw.free a x y (omega arith);
                        })
                  | inr (q, less) ↦
                      let some_end : (done.1 == 0) ≡ false =
                        ==_differ done.1 0 (λ z. omega arith) in
                      let on : (not (done.1 == 0) && is_okay done.0.0) ≡ true =
                        rw (some_end, t) refl in
                      let there =
                        execute_on alloc v op fuel refl s.cell e found on
                        ∙ ap
                            (λ n.
                              execute alloc fuel (sweep start_size n (size - (n - vaddr)) tolerant)
                                done.0.1)
                            q in
                      let rest =
                        again sw.map done.0.1 end (size - (end - vaddr)) sw.now (omega arith)
                          (omega arith) (subst (λ r. is_okay r.0 ≡ true) there y) in
                      let whole : end + (size - (end - vaddr)) ≡ vaddr + size = omega arith in
                      subst (λ r. Cleared laws lo hi g vaddr size r.2) (sym there)
                        (record {
                          map = rest.map;
                          now = rest.now;
                          within = (omega arith, let x = rest.within in omega arith);
                          swept =
                              IsSwept-join g sw.map rest.map vaddr end (vaddr + size) (omega arith)
                                sw.swept (subst (IsSwept sw.map rest.map end) whole rest.swept);
                          free = λ a x y. elim (dec_lt a end) [
                            | yes l ↦ elim (rest.swept.only a) [
                              | inl p ↦ ap (λ w. w.0) p ∙ sw.free a x y l
                              | inr p ↦ p
                            ]
                            | no l ↦ rest.free a (omega arith) (omega arith)
                          ];
                        })
                ]
          ]

module _ {κ} {S : Type κ} {alloc : Allocator S} (laws : Laws alloc) (lo hi : ℕ)
    (small : hi < 2 ^ 64) (tolerant : Bool) where
  -- On a well-formed space of addresses from `lo` to `hi` < 2^64, a `Free` with `sparse` that returns
  -- `Okay`, over however many regions, leaves a well-formed space in which the whole range is free. The
  -- range lay inside the space; what has changed elsewhere has become free, and lies at most a page
  -- before or behind the range. The range is not empty and ends below 2^64; the allocator of nodes
  -- keeps its laws.
  pub free-Cleared :
      (fuel : ℕ) (g : AddressMap) (v : Vas S) (vaddr size : ℕ)
      → Implements laws g lo hi v
      → 0 < size
      → vaddr + size < 2 ^ 64
      → (free alloc fuel vaddr size true tolerant v).0 ≡ okay
      → Cleared laws lo hi g vaddr size (free alloc fuel vaddr size true tolerant v).1
  unfolding free
  free-Cleared fuel g v vaddr size i some_size fits y =
      execute-Cleared laws lo hi small size tolerant fuel g v vaddr size i some_size fits
        (ground arith)
