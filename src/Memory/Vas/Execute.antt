-- ===== src/Memory/Vas/Execute.antt =====
-- `OperationParameters::Execute` of beelzebub/src/memory/vas.cpp, case by case.
use beelzebub.Common.{
  ℕ, zero, suc, ◌+◌, ◌-◌, ◌*◌, ◌/◌, ◌%◌, ◌^◌, true, false, not, ◌&&◌, ltb, ◌==◌, if◌then◌else◌, u64,
  Option, none, some,
}
use beelzebub.Handles.{okay, out_of_memory, failed, object_disposed, argument_out_of_range, is_okay}
use beelzebub.Avl.Node.{Cell}
use beelzebub.Avl.Edit.{Allocator}
use beelzebub.Avl.Tree.{AvlTree, Outcome}
use beelzebub.Avl.Tree
use beelzebub.Memory.Regions.{MemoryRegion, compare_regions, compare_address, find_region}
use beelzebub.Memory.Pointers.{load, modify}
use beelzebub.Memory.Vas.{
  Vas, Manipulation, OperationParameters, DescriptorCheckResults, free_content, permanent,
  without_low, without_high, is_allocation, check, repurpose, spawned, can_allocate_anonymously,
}
use beelzebub.Memory.Vas.Writes.{
  set_start, set_end, set_next, set_prev, shrink_low, shrink_high, Result, Executed, on_tree,
  unless_failed, unless_lost, link_from, link_back, forget,
}

module _ {κ} {S : Type κ} where
  module _ (alloc : Allocator S) where
    abbrev pub remove_at : ℕ → Vas S → Result S
    remove_at vaddr v =
        let o = Tree.remove alloc (λ reg. compare_address reg.range vaddr) v.tree in
        (o.result, record v { tree = o.tree })

    abbrev pub insert_region : MemoryRegion → Vas S → Outcome MemoryRegion S
    insert_region reg v = Tree.insert alloc compare_regions reg v.tree

    module _ (m : Manipulation) (vaddr end_addr : ℕ) (a : ℕ) (reg : MemoryRegion) where
      -- The left neighbour is extended to `new_end`, once this region is gone.
      abbrev pub extend_left : (new_end next : ℕ) → Vas S → Result S
      extend_left new_end next v = (
        okay,
        link_back next reg.prev
            (on_tree (modify reg.prev (λ r. set_next next (set_end new_end r))) v),
      )

      unfoldable pub absorb_left : (new_end next : ℕ) → Vas S → Result S
      absorb_left new_end next v = unless_failed (remove_at vaddr v) (extend_left new_end next)

      unfoldable pub merge_both : Vas S → Result S
      unfolding absorb_left
      merge_both v = elim (load reg.next v.tree) [
        | none ↦ (failed, v)
        | some n ↦
            unless_failed (remove_at (u64 (n.range.end + 2 ^ 64 - 1)) v)
              (absorb_left n.range.end n.next)
      ]

      unfoldable pub merge_left : Vas S → Result S
      unfolding absorb_left
      merge_left v = absorb_left reg.range.end reg.next v

      -- The right neighbour is extended to the start of this region, once it is gone.
      abbrev pub extend_right : Vas S → Result S
      extend_right v = (
        okay,
        link_from reg.prev reg.next
            (on_tree (modify reg.next (λ r. set_prev reg.prev (set_start reg.range.start r))) v),
      )

      unfoldable pub merge_right : Vas S → Result S
      merge_right v = unless_failed (remove_at vaddr v) extend_right

      unfoldable pub repurpose_whole : Vas S → Result S
      repurpose_whole v = (okay, on_tree (modify a (repurpose m)) v)

      unfoldable pub grow_left : Vas S → Result S
      grow_left v = (
        okay,
        on_tree (λ t. modify reg.prev (set_end end_addr) (modify a (shrink_low end_addr) t)) v,
      )

      -- What follows the insertion of a region before this one.
      abbrev pub link_before : ℕ → Vas S → Result S
      link_before new v = (
        okay,
        on_tree (modify a (set_prev new)) (
            link_from reg.prev new
              (on_tree (modify new (λ r. set_next a (set_prev reg.prev r))) v)),
      )

      unfoldable pub split_low : Vas S → Result S
      split_low v =
          let v = on_tree (modify a (shrink_low end_addr)) v in
          unless_lost (insert_region (spawned m reg.range.start end_addr) v) v link_before

      unfoldable pub grow_right : Vas S → Result S
      grow_right v = (
        okay,
        on_tree (λ t. modify reg.next (set_start vaddr) (modify a (shrink_high vaddr) t)) v,
      )

      -- What follows the insertion of a region behind this one.
      abbrev pub link_behind : ℕ → Vas S → Result S
      link_behind new v = (
        okay,
        on_tree (modify a (set_next new)) (
            link_back reg.next new
              (on_tree (modify new (λ r. set_next reg.next (set_prev a r))) v)),
      )

      unfoldable pub split_high : Vas S → Result S
      split_high v =
          let v = on_tree (modify a (shrink_high vaddr)) v in
          unless_lost (insert_region (spawned m vaddr reg.range.end) v) v link_behind

      -- What is left of the region behind the operation, between `mid` and the next one.
      abbrev pub remainder : ℕ → MemoryRegion
      remainder mid = record {
        range = record { start = end_addr; end = reg.range.end };
        flags = reg.flags;
        content = reg.content;
        type = without_low (without_high reg.type) + (reg.type / 2 % 2 * 2);
        prev = mid;
        next = reg.next;
      }

      -- What follows the insertion of the region in the middle, and that of the last one.
      abbrev pub link_middle : (mid last : ℕ) → Vas S → Result S
      link_middle mid last v = (
        okay,
        link_back reg.next last (
            on_tree (modify a (set_next mid))
              (on_tree (modify mid (λ r. set_next last (set_prev a r))) v)),
      )

      abbrev pub insert_last : ℕ → Vas S → Result S
      insert_last mid v = unless_lost (insert_region (remainder mid) v) v (link_middle mid)

      unfoldable pub split_middle : Vas S → Result S
      split_middle v =
          let v = on_tree (modify a (shrink_high vaddr)) v in
          unless_lost (insert_region (spawned m vaddr end_addr) v) v insert_last

      -- The nine cases.
      unfoldable pub manipulate : DescriptorCheckResults → Vas S → Result S
      unfolding merge_both merge_left merge_right repurpose_whole grow_left split_low grow_right
          split_high split_middle
      manipulate dcr v =
          if dcr.meets_left
          then if dcr.meets_right
            then if dcr.left_mergeable
              then if dcr.right_mergeable then merge_both v else merge_left v
              else if dcr.right_mergeable
              then merge_right v
              else repurpose_whole v
            else if dcr.left_mergeable
            then grow_left v
            else split_low v
          else if dcr.meets_right
          then if dcr.right_mergeable then grow_right v else split_high v
          else split_middle v

    -- The rest for the region found; the continuation is null where none is needed.
    unfoldable pub execute_at : OperationParameters → Cell MemoryRegion → Vas S → Result S × ℕ
    unfolding check manipulate
    execute_at op c v =
        let reg = c.payload in
        let v = forget c.address v in
        let end_addr = u64 (op.address + op.size) in
        let beyond = ltb reg.range.end end_addr in
        let dcr = check op reg (load reg.prev v.tree) (load reg.next v.tree) in
        let continuation = if beyond then reg.range.end else 0 in
        if beyond && not op.sparse
        then ((argument_out_of_range, v), 0)
        else if dcr.accepted
        then if permanent reg.type
          then ((failed, v), 0)
          else (manipulate op.manipulation op.address end_addr c.address reg dcr v, continuation)
        else if op.tolerant
        then ((okay, v), continuation)
        else ((dcr.failure_result, v), 0)

    -- The first region along the links from `reg` that the operation can use, and its new address.
    unfoldable pub find_anonymous : ℕ → OperationParameters → ℕ → Vas S → Option ℕ
    unfolding can_allocate_anonymously
    find_anonymous zero op reg v = none
    find_anonymous (suc fuel) op reg v = elim (load reg v.tree) [
      | none ↦ none
      | some r ↦
          let further = find_anonymous fuel op r.next v in
          if r.content == free_content
          then (elim (can_allocate_anonymously op r) [
            | none ↦ further
            | some address ↦ some address
          ])
          else further
    ]

    -- `Execute`; a case of the nine that fails jumps to the end. Each call of itself takes one unit of
    -- fuel, as does each region on the way to an anonymous allocation.
    unfoldable pub execute : ℕ → OperationParameters → Vas S → Executed S
    unfolding execute_at find_anonymous
    execute zero op v = (failed, op.address, v)
    execute (suc fuel) op v =
        if v.first == 0
        then (object_disposed, op.address, v)
        else if is_allocation op.manipulation && (op.address == 0)
        then (elim (find_anonymous fuel op v.first v) [
          | none ↦ (out_of_memory, op.address, v)
          | some address ↦ execute fuel (record op { address = address }) v
        ])
        else (elim (find_region alloc op.address v.tree) [
          | none ↦ (argument_out_of_range, op.address, v)
          | some c ↦
              let done = execute_at op c v in
              elim (not (done.1 == 0) && is_okay done.0.0) [
                | true ↦
                    execute fuel
                      (record op { address = done.1; size = op.size - (done.1 - op.address) })
                      done.0.1
                | false ↦ (done.0.0, op.address, done.0.1)
              ]
        ])
