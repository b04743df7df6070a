-- ===== src/Memory/Vas/Merges.antt =====
-- The cases of `Execute` in beelzebub/src/memory/vas.cpp that remove regions.
use beelzebub.Common.{
  ℕ, ◌+◌, ◌-◌, ◌^◌, ◌≤◌, ◌<◌, ◌≡◌, refl, sym, subst, ◌∙◌, List, [], ◌∷◌, ◌++◌, append_assoc, some,
  u64, All-append, arith,
}
use beelzebub.Avl.Node.{Cell}
use beelzebub.Avl.Edit.{Allocator}
use beelzebub.Memory.Regions.{MemoryRegion}
use beelzebub.Memory.Pointers.{load, modify}
use beelzebub.Memory.Places.{put}
use beelzebub.Memory.Vas.{Vas, Manipulation}
use beelzebub.Memory.Vas.Execute.{
  extend_left, extend_right, absorb_left, merge_left, merge_right, merge_both,
}
use beelzebub.Memory.Vas.Writes.{on_tree, set_start, set_end, set_next, set_prev}
use beelzebub.Memory.Vas.Chain.{
  use_of, AddressMap, Linked, Chain, first_of, first_of-relink_prev, chain_le, chain-IsWithin,
  chain-relink_next, chain-relink_prev, relink_next, relink_prev,
}
use beelzebub.Memory.Vas.Holding.{Laws, Holding, load_held, write_held}
use beelzebub.Memory.Vas.Space.{Around, Beside, assemble, Implements-agree}
use beelzebub.Memory.Vas.Links.{LinkedFrom, linked_from, linked_back}
use beelzebub.Memory.Vas.Updates.{
  purpose, updated, front_updated, back_updated, extended_shows, updated_further,
}
use beelzebub.Memory.Vas.Around.{remove_then, here-eq, Leaves, address-IsLess, address-IsGreater}

module _ {κ} {S : Type κ} {alloc : Allocator S} (laws : Laws alloc) (m : Manipulation)
    (vaddr end_addr : ℕ) (g : AddressMap) (lo hi : ℕ) where
  -- `p` grows over `c` and what was removed behind it.
  absorb_left-Leaves :
      (v : Vas S) (xs : List (Cell MemoryRegion)) (p c : Cell MemoryRegion)
      (ys : List (Cell MemoryRegion)) (last border k q final new_end : ℕ)
      → Holding laws v (xs ++ p ∷ c ∷ ys)
      → v.first ≡ first_of xs p.address
      → Chain g 0 lo xs last border p.address
      → Linked g last border k p.payload
      → c.payload.prev ≡ p.address
      → c.payload.range.start ≡ p.payload.range.end
      → c.payload.range.start ≤ vaddr
      → vaddr < c.payload.range.end
      → c.payload.range.end ≤ new_end
      → Chain g q new_end ys final hi 0
      → use_of p.payload ≡ purpose m
      → Leaves laws
          (updated g c.payload.range.start new_end (purpose m))
          lo
          hi
          (absorb_left alloc m vaddr end_addr c.address c.payload new_end (first_of ys 0) v)
  unfolding absorb_left
  absorb_left-Leaves v xs p c ys last border k q final new_end held first front before prev start
        low high fits back same =
      let s = c.payload.range.start in
      let u = purpose m in
      let p_start = before.start in
      let proper = before.proper in
      remove_then laws vaddr v (xs ++ p ∷ []) c ys
        (extend_left alloc m vaddr end_addr c.address c.payload new_end (first_of ys 0))
        (Leaves laws (updated g s new_end u) lo hi)
        (subst (Holding laws v) (sym (append_assoc xs (p ∷ []) (c ∷ ys))) held)
        (All-append _ xs (p ∷ [])
          (address-IsLess vaddr lo border xs (omega arith)
            (chain-IsWithin g 0 lo xs last border p.address lo (omega arith) front))
          (address-IsLess vaddr border s (p ∷ []) low
            ((omega arith, omega arith, omega arith), tt)))
        (here-eq c.payload.range vaddr low high)
        (address-IsGreater vaddr new_end hi ys (omega arith)
          (chain-IsWithin g q new_end ys final hi 0 new_end (omega arith) back))
        (λ w first' held'.
          let write : MemoryRegion → MemoryRegion =
            λ r. set_next (first_of ys 0) (set_end new_end r) in
          let p' = put write p in
          let w1 = on_tree (modify p.address write) w in
          let held1 =
            write_held laws w xs p ys write
              (subst (Holding laws w) (append_assoc xs (p ∷ []) ys) held') in
          let linked =
            linked_back laws w1 p.address (xs ++ p' ∷ []) ys
              (subst (Holding laws w1) (sym (append_assoc xs (p' ∷ []) ys)) held1) in
          let (final', back') =
            chain-relink_prev _ q new_end p.address ys final hi 0
              (back_updated g s new_end u q new_end ys final hi 0 (omega arith) back) in
          rw prev (
            refl,
            assemble laws _ lo hi _ xs (p' ∷ relink_prev p.address ys) last border final'
                (subst (Holding laws _) (append_assoc xs (p' ∷ []) (relink_prev p.address ys))
                  linked.0)
                (linked.1 ∙ first' ∙ first)
                (front_updated g s new_end u 0 lo xs last border p.address (omega arith) front)
                (
                  record {
                    prev = before.prev;
                    start = before.start;
                    proper = omega arith;
                    next = sym (first_of-relink_prev p.address ys 0);
                    shows = λ a l o.
                        extended_shows g s new_end u _ a (λ _ _. same)
                          (λ b. before.shows a l (omega arith)) (λ f. absurd (omega arith));
                  },
                  back',
                ),
          ))

  pub merge_left-Leaves :
      (v : Vas S) (xs : List (Cell MemoryRegion)) (p c : Cell MemoryRegion)
      (ys : List (Cell MemoryRegion))
      → Beside laws g lo hi v xs p c ys
      → use_of p.payload ≡ purpose m
      → c.payload.range.start ≤ vaddr
      → vaddr < c.payload.range.end
      → Leaves laws
          (updated g c.payload.range.start c.payload.range.end (purpose m))
          lo
          hi
          (merge_left alloc m vaddr end_addr c.address c.payload v)
  unfolding merge_left
  merge_left-Leaves v xs p c ys w same low high = rw w.here.next (
      absorb_left-Leaves v xs p c ys w.last w.border c.address c.address w.final c.payload.range.end
        w.holding w.first w.front w.before w.here.prev w.here.start low high (omega arith) w.back
        same)

  -- The right neighbour goes first.
  pub merge_both-Leaves :
      (v : Vas S) (xs : List (Cell MemoryRegion)) (p c n : Cell MemoryRegion)
      (ys : List (Cell MemoryRegion))
      → Beside laws g lo hi v xs p c (n ∷ ys)
      → use_of p.payload ≡ purpose m
      → use_of n.payload ≡ purpose m
      → c.payload.range.start ≤ vaddr
      → vaddr < c.payload.range.end
      → hi < 2 ^ 64
      → Leaves laws
          (updated g c.payload.range.start c.payload.range.end (purpose m))
          lo
          hi
          (merge_both alloc m vaddr end_addr c.address c.payload v)
  unfolding merge_both
  merge_both-Leaves v xs p c n ys w same same' low high small =
      let s = c.payload.range.start in
      let e = c.payload.range.end in
      let e' = n.payload.range.end in
      let u = purpose m in
      let r = w.back.0 in
      let c_start = w.here.start in
      let c_proper = w.here.proper in
      let p_start = w.before.start in
      let p_proper = w.before.proper in
      let n_start = r.start in
      let n_proper = r.proper in
      let rest = chain_le _ _ _ ys _ _ _ w.back.1 in
      let spot : u64 (e' + 2 ^ 64 - 1) ≡ e' - 1 = omega arith in
      let held = subst (Holding laws v) (sym (append_assoc xs (p ∷ c ∷ []) (n ∷ ys))) w.holding in
      let loaded : load c.payload.next v.tree ≡ some n.payload =
        rw w.here.next (load_held laws v (xs ++ p ∷ c ∷ []) n ys held) in
      rw (loaded, merge_both)
        (remove_then laws (u64 (e' + 2 ^ 64 - 1)) v (xs ++ p ∷ c ∷ []) n ys
          (absorb_left alloc m vaddr end_addr c.address c.payload e' n.payload.next)
          (Leaves laws (updated g s e u) lo hi) held
          (All-append _ xs (p ∷ c ∷ [])
            (address-IsLess _ lo w.border xs (omega arith)
              (chain-IsWithin g 0 lo xs w.last w.border p.address lo (omega arith) w.front))
            (address-IsLess _ w.border e (p ∷ c ∷ []) (omega arith) (
              (omega arith, omega arith, omega arith),
              ((omega arith, omega arith, omega arith), tt),
            )))
          (here-eq n.payload.range _ (omega arith) (omega arith))
          (address-IsGreater _ e' hi ys (omega arith)
            (chain-IsWithin g n.address e' ys w.final hi 0 e' (omega arith) w.back.1))
          (λ z first' held'.
            let (okay, done) =
              absorb_left-Leaves z xs p c ys w.last w.border c.address n.address w.final e'
                (subst (Holding laws z) (append_assoc xs (p ∷ c ∷ []) ys) held') (first' ∙ w.first)
                w.front w.before w.here.prev c_start low high (omega arith) w.back.1 same in
            rw r.next (
              okay,
              Implements-agree laws _ lo hi _
                  (updated_further g s e e' u (omega arith) (λ a l o. sym same' ∙ r.shows a l o))
                  done,
            )))

  pub merge_right-Leaves :
      (v : Vas S) (xs : List (Cell MemoryRegion)) (c n : Cell MemoryRegion)
      (ys : List (Cell MemoryRegion))
      → Around laws g lo hi v xs c (n ∷ ys)
      → use_of n.payload ≡ purpose m
      → c.payload.range.start ≤ vaddr
      → vaddr < c.payload.range.end
      → Leaves laws
          (updated g c.payload.range.start c.payload.range.end (purpose m))
          lo
          hi
          (merge_right alloc m vaddr end_addr c.address c.payload v)
  unfolding merge_right
  merge_right-Leaves v xs c n ys w same low high =
      let s = c.payload.range.start in
      let e = c.payload.range.end in
      let u = purpose m in
      let k = w.here in
      let r = w.back.0 in
      let start = k.start in
      let proper = r.proper in
      let rest = chain_le _ _ _ ys _ _ _ w.back.1 in
      remove_then laws vaddr v xs c (n ∷ ys)
        (extend_right alloc m vaddr end_addr c.address c.payload)
        (Leaves laws (updated g s e u) lo hi) w.holding
        (address-IsLess vaddr lo w.border xs (omega arith)
          (chain-IsWithin g 0 lo xs w.last w.border c.address lo (omega arith) w.front))
        (here-eq c.payload.range vaddr low high)
        (address-IsGreater vaddr e hi (n ∷ ys) high
          (chain-IsWithin g c.address e (n ∷ ys) w.final hi 0 e (omega arith) w.back))
        (λ z first' held'.
          let write : MemoryRegion → MemoryRegion = λ t. set_prev c.payload.prev (set_start s t) in
          let n' = put write n in
          let z1 = on_tree (modify n.address write) z in
          let from =
            linked_from laws g lo w.last w.border c.address z1 n.address c.address xs (n' ∷ ys)
              w.front (first' ∙ w.first) (write_held laws z xs n ys write held') in
          let from' = subst (λ a. LinkedFrom laws z1 a n.address xs (n' ∷ ys)) (sym k.prev) from in
          rw k.next (
            refl,
            assemble laws _ lo hi _ (relink_next n.address xs) (n' ∷ ys) w.last w.border w.final
                from'.0 from'.1
                (chain-relink_next _ 0 lo n.address xs w.last w.border c.address
                  (front_updated g s e u 0 lo xs w.last w.border c.address (omega arith) w.front))
                (
                  record {
                    prev = k.prev;
                    start = start;
                    proper = omega arith;
                    next = r.next;
                    shows = λ a l o.
                        extended_shows g s e u _ a (λ _ _. same) (λ b. absurd (omega arith))
                          (λ f. r.shows a f o);
                  },
                  back_updated g s e u n.address _ ys w.final hi 0 (omega arith) w.back.1,
                ),
          ))
