-- ===== src/Memory/Vas/Sweeping.antt =====
-- A sparse `Vas::Free` of beelzebub/src/memory/vas.cpp in one region of a well-formed space.
use beelzebub.Common.{
  ℕ, ◌+◌, ◌-◌, ◌^◌, ◌≤◌, ◌<◌, ◌≡◌, refl, sym, subst, ap, ◌∙◌, ◌⊎◌, inl, inr, List, Bool, true,
  false, ltb, ltb→lt, ltb→ge, Bool-cases, dec_lt, if◌then◌else◌, u64, arith,
}
use beelzebub.Handles
use beelzebub.Handles.{is_okay, failed, argument_out_of_range, page_free}
use beelzebub.Avl.Node.{Cell}
use beelzebub.Avl.Edit.{Allocator}
use beelzebub.Memory.Pointers.{load}
use beelzebub.Memory.Regions.{MemoryRegion}
use beelzebub.Memory.Vas.{
  Vas, OperationParameters, DescriptorCheckResults, free_content, page_size, permanent,
}
use beelzebub.Memory.Vas.Writes.{Result, forget}
use beelzebub.Memory.Vas.Execute.{execute_at, manipulate}
use beelzebub.Memory.Vas.Calls.{free_operation}
use beelzebub.Memory.Vas.Chain.{Use, AddressMap}
use beelzebub.Memory.Vas.Holding.{Laws}
use beelzebub.Memory.Vas.Updates.{updated, updated_inside, updated_before, updated_behind}
use beelzebub.Memory.Vas.Space.{Implements, Around, around-Implements}
use beelzebub.Memory.Vas.Checks.{Guarded, check-Guarded, Bounds, check-Bounds, check-failure}
use beelzebub.Memory.Vas.Manipulating.{low_of, high_of, manipulate-Leaves}
use beelzebub.Memory.Vas.Executing.{checked, choose, forget-Around}

-- What has become of a map where a range, with a page around it at most, may only have been freed.
pub record IsSwept (g g' : AddressMap) (start finish : ℕ) : Type 0 where
  pub only : (a : ℕ) → (g' a ≡ g a) ⊎ ((g' a).0 ≡ free_content)
  pub below : (a : ℕ) → a + page_size < start → g' a ≡ g a
  pub above : (a : ℕ) → finish + page_size ≤ a → g' a ≡ g a

-- With `Sparse`, two ways through can succeed, and go on where the operation passes the region.
choose_sparse {ℓ} :
    {A : Type ℓ} (beyond accepted permanent tolerant : Bool) (outside refused done kept wrong : A)
    (rest : ℕ)
    → let r = choose beyond true accepted permanent tolerant outside refused done kept wrong rest in
      let on = if beyond then rest else 0 in
      (r.0 ≡ refused)
      ⊎ ((r.0 ≡ wrong)
          ⊎ (((accepted ≡ true) × (r ≡ (done, on))) ⊎ ((accepted ≡ false) × (r ≡ (kept, on)))))
choose_sparse true true true t o f d k w r = inl refl
choose_sparse true true false t o f d k w r = inr (inr (inl (refl, refl)))
choose_sparse true false p true o f d k w r = inr (inr (inr (refl, refl)))
choose_sparse true false p false o f d k w r = inr (inl refl)
choose_sparse false true true t o f d k w r = inl refl
choose_sparse false true false t o f d k w r = inr (inr (inl (refl, refl)))
choose_sparse false false p true o f d k w r = inr (inr (inr (refl, refl)))
choose_sparse false false p false o f d k w r = inr (inl refl)

low_at :
    (op : OperationParameters) (reg : MemoryRegion) (d : DescriptorCheckResults)
    → reg.range.start ≤ op.address
    → op.address < 2 ^ 64
    → (d.meets_left ≡ true
        → (reg.range.start ≡ op.address)
          ⊎ (reg.range.start ≡ u64 (op.address + 2 ^ 64 - page_size)))
    → (op.address ≤ low_of op reg d + page_size) × (low_of op reg d ≤ op.address)
low_at op reg d l b h = elim (Bool-cases d.meets_left) [
  | inl e ↦ rw e (elim (h e) [ inl q ↦ (omega arith, l) | inr q ↦ (omega arith, l) ])
  | inr e ↦ rw e (omega arith, omega arith)
]

high_at :
    (op : OperationParameters) (reg : MemoryRegion) (d : DescriptorCheckResults)
    → Bounds op reg d
    → (d.meets_right ≡ true
        → (reg.range.end ≤ u64 (op.address + op.size))
          ⊎ (reg.range.end ≡ u64 (u64 (op.address + op.size) + page_size)))
    → (high_of op reg d ≤ u64 (op.address + op.size) + page_size)
      × ((u64 (op.address + op.size) ≤ high_of op reg d) ⊎ (reg.range.end ≤ high_of op reg d))
high_at op reg d b h = elim (Bool-cases d.meets_right) [
  | inl e ↦ rw e (elim (h e) [
    | inl q ↦ (omega arith, inr (omega arith))
    | inr q ↦ (omega arith, inr (omega arith))
  ])
  | inr e ↦ let x = b.inside_right e in rw e (omega arith, inl (omega arith))
]

updated-IsSwept :
    (g : AddressMap) (s e : ℕ) (start finish : ℕ)
    → start ≤ s + page_size
    → e ≤ finish + page_size
    → IsSwept g (updated g s e (free_content, 0)) start finish
updated-IsSwept g s e start finish l h =
    let u : Use = (free_content, 0) in
    record {
      only = λ a. elim (dec_lt a s) [
        | yes b ↦ inl (sym (updated_before g s e u a b))
        | no b ↦ elim (dec_lt a e) [
          | yes c ↦ inr (sym (ap (λ w. w.0) (updated_inside g s e u a (omega arith) c)))
          | no c ↦ inl (sym (updated_behind g s e u a (omega arith)))
        ]
      ];
      below = λ a b. sym (updated_before g s e u a (omega arith));
      above = λ a b. sym (updated_behind g s e u a (omega arith));
    }

module _ {κ} {S : Type κ} {alloc : Allocator S} (laws : Laws alloc) (g : AddressMap) (lo hi : ℕ)
    (v : Vas S) (small : hi < 2 ^ 64) (start_size vaddr size : ℕ) (tolerant : Bool)
    (some_size : 0 < size) (fits : vaddr + size < 2 ^ 64) (xs : List (Cell MemoryRegion))
    (c : Cell MemoryRegion) (ys : List (Cell MemoryRegion)) (w : Around laws g lo hi v xs c ys)
    (low : c.payload.range.start ≤ vaddr) (inside : vaddr < c.payload.range.end) where
  abbrev op : OperationParameters
  op = record (free_operation vaddr size true tolerant) { start_size = start_size }

  abbrev z : Vas S
  z = forget c.address v

  abbrev d : DescriptorCheckResults
  d = checked op c.payload z

  abbrev on : ℕ
  on = if ltb c.payload.range.end (u64 (vaddr + size)) then c.payload.range.end else 0

  -- One region's share of the range is free, and the operation goes on behind the region or is done.
  pub record Swept (r : Result S × ℕ) : Type 0 where
    pub map : AddressMap
    pub now : Implements laws map lo hi r.0.1
    pub swept : IsSwept g map vaddr (vaddr + size)
    pub free :
        (a : ℕ) → vaddr ≤ a → a < vaddr + size → a < c.payload.range.end → (map a).0 ≡ free_content
    pub goes_on :
        ((r.1 ≡ 0) × (vaddr + size ≤ c.payload.range.end))
        ⊎ ((r.1 ≡ c.payload.range.end) × (c.payload.range.end < vaddr + size))

  on_goes :
      ((on ≡ 0) × (vaddr + size ≤ c.payload.range.end))
      ⊎ ((on ≡ c.payload.range.end) × (c.payload.range.end < vaddr + size))
  on_goes = elim (Bool-cases (ltb c.payload.range.end (u64 (vaddr + size)))) [
    | inl e ↦ let l = ltb→lt _ _ e in rw e (inr (refl, omega arith))
    | inr e ↦ let l = ltb→ge _ _ e in rw e (inl (refl, omega arith))
  ]

  guarded : Guarded op c.payload d
  guarded =
      check-Guarded op c.payload (load c.payload.prev z.tree) (load c.payload.next z.tree) refl

  performed-Swept :
      (r : Result S)
      → Implements laws
          (updated g (low_of op c.payload d) (high_of op c.payload d) (free_content, 0))
          lo
          hi
          r.1
      → Swept (r, on)
  performed-Swept r now =
      let (l, l') = low_at op c.payload d low (omega arith) guarded.left in
      let (h, h') =
        high_at op c.payload d
          (check-Bounds op c.payload (load c.payload.prev z.tree) (load c.payload.next z.tree) low
            inside (λ e. cc))
          guarded.right in
      record {
        map = updated g (low_of op c.payload d) (high_of op c.payload d) (free_content, 0);
        now = now;
        swept = updated-IsSwept g _ _ vaddr (vaddr + size) (omega arith) (omega arith);
        free = λ a x y t. sym (
            ap (λ w. w.0)
              (updated_inside g _ _ (free_content, 0) a (omega arith)
                (elim h' [ inl q ↦ omega arith | inr q ↦ omega arith ])));
        goes_on = on_goes;
      }

  kept-Swept : d.accepted ≡ false → Swept ((Handles.okay, z), on)
  kept-Swept n =
      let start = w.here.start in
      record {
        map = g;
        now =
            around-Implements laws g lo hi z xs c ys
              (forget-Around laws g lo hi v xs c ys c.address w);
        swept = record { only = λ a. inl refl; below = λ a _. refl; above = λ a _. refl };
        free = λ a x y t. sym (ap (λ w. w.0) (w.here.shows a (omega arith) t)) ∙ guarded.kept n;
        goes_on = on_goes;
      }

  pub execute_at-Swept :
      is_okay (execute_at alloc op c v).0.0 ≡ true → Swept (execute_at alloc op c v)
  unfolding execute_at
  execute_at-Swept okay =
      let done =
        manipulate alloc op.manipulation vaddr (u64 (vaddr + size)) c.address c.payload d z in
      elim (choose_sparse (ltb c.payload.range.end (u64 (vaddr + size))) d.accepted
        (permanent c.payload.type) tolerant (argument_out_of_range, z) (failed, z) done
        (Handles.okay, z) (d.failure_result, z) c.payload.range.end) [
          | inl e ↦ absurd (unlike e refl)
          | inr (inl e) ↦ absurd (
              unlike e (
                ap is_okay (
                  check-failure op c.payload (load c.payload.prev z.tree)
                    (load c.payload.next z.tree))))
          | inr (inr (inl (f, e))) ↦ subst Swept (sym e) (
              performed-Swept done
                (manipulate-Leaves laws op g lo hi z xs c ys
                  (forget-Around laws g lo hi v xs c ys c.address w) low inside (omega arith) small
                  (λ q. cc) (inl (subst (λ r. is_okay r.0.0 ≡ true) e okay))).1)
          | inr (inr (inr (n, e))) ↦ subst Swept (sym e) (kept-Swept n)
        ]
    where
      unlike : {r : Result S} → (execute_at alloc op c v).0 ≡ r → is_okay r.0 ≡ false → ⊥
      unlike {r} e n =
          let q : is_okay r.0 ≡ true = subst (λ r. is_okay r.0 ≡ true) e okay in ground arith
