-- ===== src/Handles/Tests.antt =====
-- The handles of handles.h at concrete words.
use beelzebub.Common.{
  ℕ, ◌^◌, ◌<◌, ◌≡◌, refl, inr, List, [], ◌∷◌, true, false, ◌==◌, if◌then◌else◌, arith,
}
use beelzebub.Handles.{not_found, out_of_memory, okay}
use beelzebub.Handles.Handle.{
  HandleType, make, make_result, get_type, is_global_or_fatal, get_index, get_index_of, no_index,
  with_preppended_result,
}
use beelzebub.Handles.Results.{Tells, with_results, with_results-Tells}
use beelzebub.Handles.Pointer.{from_pointer, from_handle, to_handle, get_pointer, get_data}
use beelzebub.Handles.Fields.{make-fields, from_pointer-roundtrip}

-- Eight results, of which a handle lists six.
abbrev many : List ℕ
many = not_found ∷ 0x40 ∷ 0x41 ∷ 0x42 ∷ 0x43 ∷ out_of_memory ∷ okay ∷ []

with_results-Tells_example : Tells many 0x44 (with_results many 0x44)
with_results-Tells_example =
    with_results-Tells many 0x44
      (
        omega arith,
        (
          omega arith,
          (omega arith, (omega arith, (omega arith, (omega arith, (omega arith, tt))))),
        ),
      )
      (omega arith)

two_results :
    (with_preppended_result not_found (make_result out_of_memory)).value ≡ 0x1000000000010201
unfolding with_preppended_result make_result
two_results = refl

one_result_fits : (make_result not_found).value < 2 ^ 64
unfolding make_result
one_result_fits = omega arith

make-fields_example :
    let h = make 0x1F 0x1234 true in
    (h.value < 2 ^ 64)
    × (get_type h ≡ 0x1F)
    × (is_global_or_fatal h ≡ true)
    × (get_index h ≡ 0x1234)
    × ((kind : HandleType) → get_index_of kind h ≡ (if 0x1F == kind then 0x1234 else no_index))
make-fields_example = make-fields 0x1F 0x1234 true (omega arith) (omega arith)

-- A header of the initial RAM disk: `OFFSET` is 9.
from_pointer-roundtrip_example :
    let h = from_pointer 9 0xFFFF800000001200 77 in
    (get_pointer 9 h ≡ 0xFFFF800000001200)
    × (get_data 9 h ≡ 77)
    × (from_handle 9 0x30 (to_handle 9 0x30 false h) ≡ h)
from_pointer-roundtrip_example =
    from_pointer-roundtrip 9 (omega arith) 0xFFFF800000001200 77 (omega arith) (inr (omega arith))
      refl (omega arith) 0x30 false (omega arith)
