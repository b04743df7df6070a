-- ===== src/Memory/Vas/Writes.antt =====
-- The writes and jumps of `OperationParameters::Execute` in beelzebub/src/memory/vas.cpp.
use beelzebub.Common.{ℕ, ◌==◌, if◌then◌else◌, none, some}
use beelzebub.Handles.{HandleResult, is_okay}
use beelzebub.Avl.Tree.{AvlTree, Outcome}
use beelzebub.Memory.Regions.{MemoryRegion}
use beelzebub.Memory.Pointers.{modify}
use beelzebub.Memory.Vas.{Vas, without_low, without_high}

-- The writes to one field of a region.
abbrev pub set_start : ℕ → MemoryRegion → MemoryRegion
set_start v r = record r { range = record { start = v; end = r.range.end } }

abbrev pub set_end : ℕ → MemoryRegion → MemoryRegion
set_end v r = record r { range = record { start = r.range.start; end = v } }

abbrev pub set_next : ℕ → MemoryRegion → MemoryRegion
set_next a r = record r { next = a }

abbrev pub set_prev : ℕ → MemoryRegion → MemoryRegion
set_prev a r = record r { prev = a }

-- `reg->Range.Start = v; reg->Type &= ~GuardLow;`
abbrev pub shrink_low : ℕ → MemoryRegion → MemoryRegion
shrink_low v r = record (set_start v r) { type = without_low r.type }

-- `reg->Range.End = v; reg->Type &= ~GuardHigh;`
abbrev pub shrink_high : ℕ → MemoryRegion → MemoryRegion
shrink_high v r = record (set_end v r) { type = without_high r.type }

-- A handle, and the space after what gave it.
abbrev pub Result {κ} : Type κ → Type κ
Result S = HandleResult × Vas S

-- What a whole `Execute` gives: also the `Address` it ends with.
abbrev pub Executed {κ} : Type κ → Type κ
Executed S = HandleResult × ℕ × Vas S

module _ {κ} {S : Type κ} where
  abbrev pub on_tree : (AvlTree MemoryRegion S → AvlTree MemoryRegion S) → Vas S → Vas S
  on_tree f v = record v { tree = f v.tree }

  -- `if unlikely(res != HandleResult::Okay) goto end;` before what follows.
  abbrev pub unless_failed : Result S → (Vas S → Result S) → Result S
  unless_failed (res, v) next = if is_okay res then next v else (res, v)

  -- The same after an insertion, which also gives the new region's address.
  abbrev pub unless_lost : Outcome MemoryRegion S → Vas S → (ℕ → Vas S → Result S) → Result S
  unless_lost o v next =
      let v' = record v { tree = o.tree } in
      if is_okay o.result
      then (elim o.payload [ none ↦ (o.result, v') | some c ↦ next c.address v' ])
      else (o.result, v')

  -- `prev->Next = reg`, or `vas->First = reg` for a null `prev`.
  abbrev pub link_from : ℕ → ℕ → Vas S → Vas S
  link_from prev reg v =
      if prev == 0 then record v { first = reg } else on_tree (modify prev (set_next reg)) v

  -- `next->Prev = reg`, if `next` is not null.
  abbrev pub link_back : ℕ → ℕ → Vas S → Vas S
  link_back next reg v = if next == 0 then v else on_tree (modify next (set_prev reg)) v

  -- `if (vas->LastSearched == reg) vas->LastSearched = nullptr;`
  abbrev pub forget : ℕ → Vas S → Vas S
  forget a v = if v.last_searched == a then record v { last_searched = 0 } else v
