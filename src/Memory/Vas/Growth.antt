-- ===== src/Memory/Vas/Growth.antt =====
-- The cases of `Execute` in beelzebub/src/memory/vas.cpp that neither insert nor remove a region.
use beelzebub.Common.{ℕ, ◌<◌, ◌≡◌, refl, ap, ◌∙◌, List, ◌∷◌, arith}
use beelzebub.Avl.Node.{Cell}
use beelzebub.Avl.Edit.{Allocator}
use beelzebub.Memory.Regions.{MemoryRegion}
use beelzebub.Memory.Pointers.{modify}
use beelzebub.Memory.Places.{put}
use beelzebub.Memory.Vas.{Vas, Manipulation, repurpose}
use beelzebub.Memory.Vas.Execute.{repurpose_whole, grow_left, grow_right}
use beelzebub.Memory.Vas.Writes.{on_tree, set_start, set_end, shrink_low, shrink_high}
use beelzebub.Memory.Vas.Chain.{use_of, AddressMap}
use beelzebub.Memory.Vas.Holding.{Laws, write_held, write_second}
use beelzebub.Memory.Vas.Space.{Implements, Around, Beside, assemble}
use beelzebub.Memory.Vas.Updates.{
  purpose, updated, updated_inside, updated_before, updated_behind, front_updated, back_updated,
  extended_shows, repurpose-Linked, repurpose-range,
}

module _ {κ} {S : Type κ} {alloc : Allocator S} (laws : Laws alloc) (m : Manipulation)
    (vaddr end_addr : ℕ) (g : AddressMap) (lo hi : ℕ) (v : Vas S) where
  pub repurpose_whole-Implements :
      (xs : List (Cell MemoryRegion)) (c : Cell MemoryRegion) (ys : List (Cell MemoryRegion))
      → Around laws g lo hi v xs c ys
      → Implements laws
          (updated g c.payload.range.start c.payload.range.end (purpose m))
          lo
          hi
          (repurpose_whole alloc m vaddr end_addr c.address c.payload v).1
  unfolding repurpose_whole repurpose
  repurpose_whole-Implements xs c ys w =
      let s = c.payload.range.start in
      let e = c.payload.range.end in
      let start = w.here.start in
      assemble laws _ lo hi _ xs (put (repurpose m) c ∷ ys) w.last w.border w.final
        (write_held laws v xs c ys (repurpose m) w.holding) w.first
        (front_updated g s e (purpose m) 0 lo xs w.last w.border c.address (omega arith) w.front)
        (
          repurpose-Linked m _ c.payload w.here
              (λ a l u. updated_inside g s e (purpose m) a (omega arith) u),
          back_updated g s e (purpose m) c.address _ ys w.final hi 0
              (let range = ap (λ r. r.end) (repurpose-range m c.payload) in omega arith)
              (rw (repurpose-range m c.payload) w.back),
        )

  -- A shorter region behind `p`, which now ends where the operation does.
  pub grow_left-Implements :
      (xs : List (Cell MemoryRegion)) (p c : Cell MemoryRegion) (ys : List (Cell MemoryRegion))
      → Beside laws g lo hi v xs p c ys
      → use_of p.payload ≡ purpose m
      → c.payload.range.start < end_addr
      → end_addr < c.payload.range.end
      → Implements laws
          (updated g c.payload.range.start end_addr (purpose m))
          lo
          hi
          (grow_left alloc m vaddr end_addr c.address c.payload v).1
  unfolding grow_left
  grow_left-Implements xs p c ys w same low high =
      let s = c.payload.range.start in
      let u = purpose m in
      let k = w.before in
      let start = w.here.start in
      let proper = k.proper in
      let c' = put (shrink_low end_addr) c in
      let p' = put (set_end end_addr) p in
      let v' = on_tree (modify c.address (shrink_low end_addr)) v in
      rw w.here.prev (
        assemble laws _ lo hi _ xs (p' ∷ c' ∷ ys) w.last w.border w.final
          (write_held laws v' xs p (c' ∷ ys) (set_end end_addr)
            (write_second laws v xs p c ys (shrink_low end_addr) w.holding))
          w.first
          (front_updated g s end_addr u 0 lo xs w.last w.border p.address (omega arith) w.front)
          (
            record {
              prev = k.prev;
              start = k.start;
              proper = omega arith;
              next = k.next;
              shows = λ a l o.
                  extended_shows g s end_addr u _ a (λ _ _. same) (λ b. k.shows a l (omega arith))
                    (λ f. absurd (omega arith));
            },
            (
              record {
                prev = w.here.prev;
                start = refl;
                proper = high;
                next = w.here.next;
                shows = λ a l o. w.here.shows a (omega arith) o ∙ updated_behind g s end_addr u a l;
              },
              back_updated g s end_addr u c.address _ ys w.final hi 0 (omega arith) w.back,
            ),
          ))

  -- A shorter region before `n`, which now starts where the operation does.
  pub grow_right-Implements :
      (xs : List (Cell MemoryRegion)) (c n : Cell MemoryRegion) (ys : List (Cell MemoryRegion))
      → Around laws g lo hi v xs c (n ∷ ys)
      → use_of n.payload ≡ purpose m
      → c.payload.range.start < vaddr
      → vaddr < c.payload.range.end
      → Implements laws
          (updated g vaddr c.payload.range.end (purpose m))
          lo
          hi
          (grow_right alloc m vaddr end_addr c.address c.payload v).1
  unfolding grow_right
  grow_right-Implements xs c n ys w same low high =
      let e = c.payload.range.end in
      let u = purpose m in
      let k = w.here in
      let r = w.back.0 in
      let start = k.start in
      let proper = r.proper in
      let c' = put (shrink_high vaddr) c in
      let n' = put (set_start vaddr) n in
      let v' = on_tree (modify c.address (shrink_high vaddr)) v in
      rw k.next (
        assemble laws _ lo hi _ xs (c' ∷ n' ∷ ys) w.last w.border w.final
          (write_second laws v' xs c' n ys (set_start vaddr)
            (write_held laws v xs c (n ∷ ys) (shrink_high vaddr) w.holding))
          w.first
          (front_updated g vaddr e u 0 lo xs w.last w.border c.address (omega arith) w.front)
          (
            record {
              prev = k.prev;
              start = k.start;
              proper = omega arith;
              next = k.next;
              shows = λ a l o. k.shows a l (omega arith) ∙ updated_before g vaddr e u a o;
            },
            (
              record {
                prev = r.prev;
                start = refl;
                proper = omega arith;
                next = r.next;
                shows = λ a l o.
                    extended_shows g vaddr e u _ a (λ _ _. same) (λ f. absurd (omega arith))
                      (λ f. r.shows a f o);
              },
              back_updated g vaddr e u n.address _ ys w.final hi 0 (omega arith) w.back.1,
            ),
          ))
