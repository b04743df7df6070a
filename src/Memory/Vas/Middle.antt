-- ===== src/Memory/Vas/Middle.antt =====
-- The case of `Execute` in beelzebub/src/memory/vas.cpp that leaves both ends of a region, where there is
-- memory for the two regions that it inserts.
use beelzebub.Common.{
  ℕ, ◌<◌, ◌≡◌, refl, sym, subst, ◌∙◌, List, [], ◌∷◌, ◌++◌, append_assoc, All-append, arith,
}
use beelzebub.Avl.Node.{Cell}
use beelzebub.Avl.Edit.{Allocator}
use beelzebub.Memory.Regions.{MemoryRegion}
use beelzebub.Memory.Pointers.{modify}
use beelzebub.Memory.Places.{put}
use beelzebub.Memory.Vas.{Vas, Manipulation, spawned}
use beelzebub.Memory.Vas.Execute.{split_middle, link_middle, insert_last, remainder}
use beelzebub.Memory.Vas.Writes.{on_tree, shrink_high, set_next, set_prev}
use beelzebub.Memory.Vas.Chain.{
  AddressMap, first_of-relink_prev, chain-IsWithin, chain-relink_prev, relink_prev,
}
use beelzebub.Memory.Vas.Holding.{Laws, Holding, write_held, write_second}
use beelzebub.Memory.Vas.Space.{Implements, Around, assemble}
use beelzebub.Memory.Vas.Links.{LinkedBack, linked_back}
use beelzebub.Memory.Vas.Updates.{
  purpose, updated, updated_inside, updated_before, updated_behind, front_updated, back_updated,
}
use beelzebub.Memory.Vas.Around.{
  IsAble, Leaves, cell_at, insert_then, below-IsLess, above-IsGreater, spawned-Linked,
  spawned-start, spawned-end,
}
use beelzebub.Memory.Vas.Splits.{insert_behind}

module _ {κ} {S : Type κ} {alloc : Allocator S} (laws : Laws alloc) (m : Manipulation)
    (vaddr end_addr : ℕ) (g : AddressMap) (lo hi : ℕ) (v : Vas S) (xs : List (Cell MemoryRegion))
    (c : Cell MemoryRegion) (ys : List (Cell MemoryRegion)) (w : Around laws g lo hi v xs c ys)
    (low : c.payload.range.start < vaddr) (proper : vaddr < end_addr)
    (high : end_addr < c.payload.range.end) where
  abbrev front_cell : Cell MemoryRegion
  front_cell = put (shrink_high vaddr) c

  abbrev middle_cell : ℕ → Cell MemoryRegion
  middle_cell a = cell_at a (spawned m vaddr end_addr)

  abbrev last_region : ℕ → MemoryRegion
  last_region mid = remainder alloc m vaddr end_addr c.address c.payload mid

  link_middle-Implements :
      (mid a : ℕ) (v3 : Vas S)
      → v3.first ≡ v.first
      → Holding laws v3 (xs ++ front_cell ∷ middle_cell mid ∷ cell_at a (last_region mid) ∷ ys)
      → Implements laws
          (updated g vaddr end_addr (purpose m))
          lo
          hi
          (link_middle alloc m vaddr end_addr c.address c.payload mid a v3).1
  link_middle-Implements mid a v3 same held =
      let e = c.payload.range.end in
      let u = purpose m in
      let k = w.here in
      let start = k.start in
      let E = cell_at a (last_region mid) in
      let link : MemoryRegion → MemoryRegion = λ r. set_next a (set_prev c.address r) in
      let M = put link (middle_cell mid) in
      let c1 = put (set_next mid) front_cell in
      let v4 = on_tree (modify mid link) v3 in
      let v5 = on_tree (modify c.address (set_next mid)) v4 in
      let (final, back) =
        chain-relink_prev _ c.address e a ys w.final hi 0
          (back_updated g vaddr end_addr u c.address e ys w.final hi 0 (omega arith) w.back) in
      let held' =
        write_held laws v4 xs front_cell (M ∷ E ∷ ys) (set_next mid)
          (write_second laws v3 xs front_cell (middle_cell mid) (E ∷ ys) link held) in
      let linked =
        linked_back laws v5 a (xs ++ c1 ∷ M ∷ E ∷ []) ys
          (subst (Holding laws v5) (sym (append_assoc xs (c1 ∷ M ∷ E ∷ []) ys)) held') in
      let linked' =
        subst (λ n. LinkedBack laws v5 n a (xs ++ c1 ∷ M ∷ E ∷ []) ys) (sym k.next) linked in
      assemble laws _ lo hi _ xs (c1 ∷ M ∷ E ∷ relink_prev a ys) w.last w.border final
        (subst (Holding laws _) (append_assoc xs (c1 ∷ M ∷ E ∷ []) (relink_prev a ys)) linked'.0)
        (linked'.1 ∙ same ∙ w.first)
        (front_updated g vaddr end_addr u 0 lo xs w.last w.border c.address (omega arith) w.front)
        (
          record {
            prev = k.prev;
            start = k.start;
            proper = omega arith;
            next = refl;
            shows = λ x l o. k.shows x l (omega arith) ∙ updated_before g vaddr end_addr u x o;
          },
          (
            spawned-Linked m _ c.address vaddr end_addr a proper
                (λ x l o. updated_inside g vaddr end_addr u x l o),
            rw (spawned-end m vaddr end_addr) (
              record {
                prev = refl;
                start = refl;
                proper = high;
                next = k.next ∙ sym (first_of-relink_prev a ys 0);
                shows = λ x l o. k.shows x (omega arith) o ∙ updated_behind g vaddr end_addr u x l;
              },
              back,
            ),
          ),
        )

  insert_last-Leaves :
      (mid : ℕ) (v2 : Vas S)
      → v2.first ≡ v.first
      → Holding laws v2 (xs ++ front_cell ∷ middle_cell mid ∷ ys)
      → IsAble alloc (insert_last alloc m vaddr end_addr c.address c.payload mid v2)
      → Leaves laws
          (updated g vaddr end_addr (purpose m))
          lo
          hi
          (insert_last alloc m vaddr end_addr c.address c.payload mid v2)
  insert_last-Leaves mid v2 same held okay =
      let reg = last_region mid in
      let M = middle_cell mid in
      let border = w.here.start in
      let m_start = spawned-start m vaddr end_addr in
      let m_end = spawned-end m vaddr end_addr in
      insert_then laws reg v2 (xs ++ front_cell ∷ M ∷ []) ys
        (link_middle alloc m vaddr end_addr c.address c.payload mid)
        (Leaves laws (updated g vaddr end_addr (purpose m)) lo hi)
        (subst (Holding laws v2) (sym (append_assoc xs (front_cell ∷ M ∷ []) ys)) held)
        (All-append _ xs (front_cell ∷ M ∷ [])
          (below-IsLess reg lo w.border xs (omega arith)
            (chain-IsWithin g 0 lo xs w.last w.border c.address lo (omega arith) w.front))
          (below-IsLess reg c.payload.range.start end_addr (front_cell ∷ M ∷ []) (omega arith)
            ((omega arith, low, omega arith), ((omega arith, omega arith, omega arith), tt))))
        (above-IsGreater reg c.payload.range.end hi ys (omega arith) (omega arith)
          (chain-IsWithin g c.address c.payload.range.end ys w.final hi 0 _ (omega arith) w.back))
        okay
        (λ a v3 first held' _. (
          refl,
          link_middle-Implements mid a v3 (first ∙ same) (
              subst (Holding laws v3) (append_assoc xs (front_cell ∷ M ∷ []) (cell_at a reg ∷ ys))
                held'),
        ))

  -- A new region between two shorter ones.
  pub split_middle-Leaves :
      IsAble alloc (split_middle alloc m vaddr end_addr c.address c.payload v)
      → Leaves laws
          (updated g vaddr end_addr (purpose m))
          lo
          hi
          (split_middle alloc m vaddr end_addr c.address c.payload v)
  unfolding split_middle
  split_middle-Leaves okay =
      let m_start = spawned-start m vaddr end_addr in
      let m_end = spawned-end m vaddr end_addr in
      insert_behind laws m vaddr end_addr g lo hi v xs c ys w (spawned m vaddr end_addr)
        (insert_last alloc m vaddr end_addr c.address c.payload)
        (Leaves laws (updated g vaddr end_addr (purpose m)) lo hi) low m_start (omega arith)
        (omega arith) okay insert_last-Leaves
