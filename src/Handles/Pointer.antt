-- ===== src/Handles/Pointer.antt =====
-- `HandlePointer` of sysheaders/common/beel/handles.h: a pointer and some data in the index of a
-- `Handle`. `OFFSET`, at most 48, is the number of low bits of the pointer that are zero and not kept.
use beelzebub.Common.{ℕ, ◌+◌, ◌-◌, ◌*◌, ◌/◌, ◌%◌, ◌^◌, Bool, ◌==◌, if◌then◌else◌}
use beelzebub.Handles.Handle.{Handle, HandleType, make, get_index_of}

pub record HandlePointer : Type 0 where
  pub value : ℕ

-- `GetExtendedPointer` of sysheaders/amd64/beel/metaprogramming.h at a number below 2 ^ 48.
unfoldable pub get_extended_pointer : ℕ → ℕ
get_extended_pointer p = if p / 2 ^ 47 % 2 == 0 then p else p + 0xFFFF000000000000

module _ (offset : ℕ) where
  -- `(ptr & PointerMask) >> OFFSET`.
  abbrev pub pointer_part : ℕ → ℕ
  pointer_part ptr = ptr % 2 ^ 48 / 2 ^ offset

  -- `data & DataMask`, and the weight of `<< DataOffset`.
  abbrev pub data_part : ℕ → ℕ
  data_part bits = bits % 2 ^ (7 + offset) % 2 ^ 55

  abbrev pub data_unit : ℕ
  data_unit = 2 ^ (48 - offset)

  unfoldable pub from_handle : HandleType → Handle → HandlePointer
  from_handle type h = record { value = get_index_of type h }

  unfoldable pub from_pointer : ℕ → ℕ → HandlePointer
  from_pointer ptr bits = record { value = pointer_part ptr + data_part bits * data_unit }

  unfoldable pub to_handle : HandleType → Bool → HandlePointer → Handle
  to_handle type glob h = make type h.value glob

  unfoldable pub set_pointer : ℕ → HandlePointer → HandlePointer
  set_pointer ptr h = record {
    value = data_part (h.value / data_unit) * data_unit + pointer_part ptr;
  }

  unfoldable pub set_data : ℕ → HandlePointer → HandlePointer
  set_data bits h = record { value = h.value % data_unit + data_part bits * data_unit }

  unfoldable pub get_pointer : HandlePointer → ℕ
  unfolding get_extended_pointer
  get_pointer h = get_extended_pointer (h.value % data_unit * 2 ^ offset)

  unfoldable pub get_data : HandlePointer → ℕ
  get_data h = data_part (h.value / data_unit)
