-- ===== src/Memory/Vas/Splits.antt =====
-- The cases of `Execute` in beelzebub/src/memory/vas.cpp that insert a region, where there is memory for it.
use beelzebub.Common.{
  ℕ, ◌≤◌, ◌<◌, ◌≡◌, refl, sym, subst, ◌∙◌, List, [], ◌∷◌, ◌++◌, append_assoc, All-append, arith,
}
use beelzebub.Avl.Node.{Cell}
use beelzebub.Avl.Edit.{Allocator}
use beelzebub.Memory.Regions.{MemoryRegion}
use beelzebub.Memory.Pointers.{modify}
use beelzebub.Memory.Places.{put}
use beelzebub.Memory.Vas.{Vas, Manipulation, spawned}
use beelzebub.Memory.Vas.Execute.{insert_region, link_before, link_behind, split_low, split_high}
use beelzebub.Memory.Vas.Writes.{
  Result, on_tree, unless_lost, shrink_low, shrink_high, set_next, set_prev,
}
use beelzebub.Memory.Vas.Chain.{
  AddressMap, first_of-relink_prev, chain_le, chain-IsWithin, chain-relink_next, chain-relink_prev,
  relink_next, relink_prev,
}
use beelzebub.Memory.Vas.Holding.{Laws, Holding, write_held, write_second}
use beelzebub.Memory.Vas.Space.{Implements, Around, assemble}
use beelzebub.Memory.Vas.Links.{LinkedFrom, LinkedBack, linked_from, linked_back}
use beelzebub.Memory.Vas.Updates.{
  purpose, updated, updated_inside, updated_before, updated_behind, front_updated, back_updated,
}
use beelzebub.Memory.Vas.Around.{
  IsAble, Leaves, cell_at, insert_then, below-IsLess, above-IsGreater, spawned-Linked,
  spawned-start, spawned-end,
}

module _ {κ} {S : Type κ} {alloc : Allocator S} (laws : Laws alloc) (m : Manipulation)
    (vaddr end_addr : ℕ) (g : AddressMap) (lo hi : ℕ) (v : Vas S) (xs : List (Cell MemoryRegion))
    (c : Cell MemoryRegion) (ys : List (Cell MemoryRegion))
    (w : Around laws g lo hi v xs c ys) where
  link_before-Implements :
      (a : ℕ) (v2 : Vas S)
      → c.payload.range.start < end_addr
      → end_addr < c.payload.range.end
      → v2.first ≡ v.first
      → Holding laws v2 (
          xs
          ++ cell_at a (spawned m c.payload.range.start end_addr)
            ∷ put (shrink_low end_addr) c
            ∷ ys)
      → Implements laws
          (updated g c.payload.range.start end_addr (purpose m))
          lo
          hi
          (link_before alloc m vaddr end_addr c.address c.payload a v2).1
  link_before-Implements a v2 low high same held =
      let s = c.payload.range.start in
      let u = purpose m in
      let start = w.here.start in
      let c1 = put (shrink_low end_addr) c in
      let b = cell_at a (spawned m s end_addr) in
      let link : MemoryRegion → MemoryRegion =
        λ r. set_next c.address (set_prev c.payload.prev r) in
      let from =
        linked_from laws g lo w.last w.border c.address (on_tree (modify a link) v2) a c.address xs
          (put link b ∷ c1 ∷ ys) w.front (same ∙ w.first)
          (write_held laws v2 xs b (c1 ∷ ys) link held) in
      let from' =
        subst (λ p. LinkedFrom laws (on_tree (modify a link) v2) p a xs (put link b ∷ c1 ∷ ys))
          (sym w.here.prev) from in
      assemble laws _ lo hi _ (relink_next a xs) (put link b ∷ put (set_prev a) c1 ∷ ys) w.last
        w.border w.final
        (write_second laws _ (relink_next a xs) (put link b) c1 ys (set_prev a) from'.0) from'.1
        (chain-relink_next _ 0 lo a xs w.last w.border c.address
          (front_updated g s end_addr u 0 lo xs w.last w.border c.address (omega arith) w.front))
        (
          rw (sym w.here.prev, sym start)
              (spawned-Linked m _ c.payload.prev s end_addr c.address low
                (λ x l o. updated_inside g s end_addr u x l o)),
          rw (spawned-end m s end_addr) (
            record {
              prev = refl;
              start = refl;
              proper = high;
              next = w.here.next;
              shows = λ x l o. w.here.shows x (omega arith) o ∙ updated_behind g s end_addr u x l;
            },
            back_updated g s end_addr u c.address _ ys w.final hi 0 (omega arith) w.back,
          ),
        )

  -- A new region before the shorter one.
  pub split_low-Leaves :
      c.payload.range.start < end_addr
      → end_addr < c.payload.range.end
      → IsAble alloc (split_low alloc m vaddr end_addr c.address c.payload v)
      → Leaves laws
          (updated g c.payload.range.start end_addr (purpose m))
          lo
          hi
          (split_low alloc m vaddr end_addr c.address c.payload v)
  unfolding split_low
  split_low-Leaves low high okay =
      let s = c.payload.range.start in
      let start = w.here.start in
      let reg = spawned m s end_addr in
      let r_start = spawned-start m s end_addr in
      let r_end = spawned-end m s end_addr in
      insert_then laws reg (on_tree (modify c.address (shrink_low end_addr)) v) xs
        (put (shrink_low end_addr) c ∷ ys) (link_before alloc m vaddr end_addr c.address c.payload)
        (Leaves laws (updated g s end_addr (purpose m)) lo hi)
        (write_held laws v xs c ys (shrink_low end_addr) w.holding)
        (below-IsLess reg lo w.border xs (omega arith)
          (chain-IsWithin g 0 lo xs w.last w.border c.address lo (omega arith) w.front))
        (above-IsGreater reg end_addr hi (put (shrink_low end_addr) c ∷ ys) (omega arith)
          (omega arith)
          (
            (omega arith, high, chain_le _ _ _ ys _ _ _ w.back),
            chain-IsWithin g c.address c.payload.range.end ys w.final hi 0 end_addr (omega arith)
                w.back,
          ))
        okay (λ a v2 first held _. (refl, link_before-Implements a v2 low high first held))

  -- The insertion of a region behind the shorter one.
  pub insert_behind {μ} :
      (reg : MemoryRegion) (next : ℕ → Vas S → Result S) (Q : Result S → Type μ)
      → c.payload.range.start < vaddr
      → reg.range.start ≡ vaddr
      → vaddr ≤ reg.range.end
      → reg.range.end ≤ c.payload.range.end
      → let v1 = on_tree (modify c.address (shrink_high vaddr)) v in
        IsAble alloc (unless_lost (insert_region alloc reg v1) v1 next)
        → ((a : ℕ) (v2 : Vas S)
            → v2.first ≡ v.first
            → Holding laws v2 (xs ++ put (shrink_high vaddr) c ∷ cell_at a reg ∷ ys)
            → IsAble alloc (next a v2)
            → Q (next a v2))
        → Q (unless_lost (insert_region alloc reg v1) v1 next)
  insert_behind reg next Q low start proper fits okay proceed =
      let c1 = put (shrink_high vaddr) c in
      let v1 = on_tree (modify c.address (shrink_high vaddr)) v in
      let border = w.here.start in
      insert_then laws reg v1 (xs ++ c1 ∷ []) ys next Q
        (subst (Holding laws v1) (sym (append_assoc xs (c1 ∷ []) ys))
          (write_held laws v xs c ys (shrink_high vaddr) w.holding))
        (All-append _ xs (c1 ∷ [])
          (below-IsLess reg lo w.border xs (omega arith)
            (chain-IsWithin g 0 lo xs w.last w.border c.address lo (omega arith) w.front))
          (below-IsLess reg c.payload.range.start vaddr (c1 ∷ []) (omega arith)
            ((omega arith, low, omega arith), tt)))
        (above-IsGreater reg c.payload.range.end hi ys (omega arith) fits
          (chain-IsWithin g c.address c.payload.range.end ys w.final hi 0 _ (omega arith) w.back))
        okay
        (λ a v2 first held done.
          proceed a v2 first
            (subst (Holding laws v2) (append_assoc xs (c1 ∷ []) (cell_at a reg ∷ ys)) held) done)

  link_behind-Implements :
      (a : ℕ) (v2 : Vas S)
      → c.payload.range.start < vaddr
      → vaddr < c.payload.range.end
      → v2.first ≡ v.first
      → Holding laws v2
          (xs ++ put (shrink_high vaddr) c ∷ cell_at a (spawned m vaddr c.payload.range.end) ∷ ys)
      → Implements laws
          (updated g vaddr c.payload.range.end (purpose m))
          lo
          hi
          (link_behind alloc m vaddr end_addr c.address c.payload a v2).1
  link_behind-Implements a v2 low high same held =
      let e = c.payload.range.end in
      let u = purpose m in
      let k = w.here in
      let start = k.start in
      let c1 = put (shrink_high vaddr) c in
      let b = cell_at a (spawned m vaddr e) in
      let link : MemoryRegion → MemoryRegion =
        λ r. set_next c.payload.next (set_prev c.address r) in
      let v3 = on_tree (modify a link) v2 in
      let (final, back) =
        chain-relink_prev _ c.address e a ys w.final hi 0
          (back_updated g vaddr e u c.address e ys w.final hi 0 (omega arith) w.back) in
      let group = append_assoc xs (c1 ∷ put link b ∷ []) ys in
      let linked =
        linked_back laws v3 a (xs ++ c1 ∷ put link b ∷ []) ys
          (subst (Holding laws v3) (sym group) (write_second laws v2 xs c1 b ys link held)) in
      let linked' =
        subst (λ n. LinkedBack laws v3 n a (xs ++ c1 ∷ put link b ∷ []) ys) (sym k.next) linked in
      assemble laws _ lo hi _ xs (put (set_next a) c1 ∷ put link b ∷ relink_prev a ys) w.last
        w.border final
        (write_held laws _ xs c1 (put link b ∷ relink_prev a ys) (set_next a) (
          subst (Holding laws _) (append_assoc xs (c1 ∷ put link b ∷ []) (relink_prev a ys))
            linked'.0))
        (linked'.1 ∙ same ∙ w.first)
        (front_updated g vaddr e u 0 lo xs w.last w.border c.address (omega arith) w.front)
        (
          record {
            prev = k.prev;
            start = k.start;
            proper = omega arith;
            next = refl;
            shows = λ x l o. k.shows x l (omega arith) ∙ updated_before g vaddr e u x o;
          },
          (
            rw (first_of-relink_prev a ys 0, sym k.next)
                (spawned-Linked m _ c.address vaddr e c.payload.next high
                  (λ x l o. updated_inside g vaddr e u x l o)),
            rw (spawned-end m vaddr e) back,
          ),
        )

  -- A new region behind the shorter one.
  pub split_high-Leaves :
      c.payload.range.start < vaddr
      → vaddr < c.payload.range.end
      → IsAble alloc (split_high alloc m vaddr end_addr c.address c.payload v)
      → Leaves laws
          (updated g vaddr c.payload.range.end (purpose m))
          lo
          hi
          (split_high alloc m vaddr end_addr c.address c.payload v)
  unfolding split_high
  split_high-Leaves low high okay =
      let e = c.payload.range.end in
      insert_behind (spawned m vaddr e) (link_behind alloc m vaddr end_addr c.address c.payload)
        (Leaves laws (updated g vaddr e (purpose m)) lo hi) low (spawned-start m vaddr e)
        (let r_start = spawned-start m vaddr e in let r_end = spawned-end m vaddr e in omega arith)
        (let r_end = spawned-end m vaddr e in omega arith) okay
        (λ a v2 first held _. (refl, link_behind-Implements a v2 low high first held))
