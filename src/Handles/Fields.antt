-- ===== src/Handles/Fields.antt =====
-- What is put into a `Handle` or a `HandlePointer` of handles.h comes out of it.
use beelzebub.Common.{
  ℕ, zero, suc, ◌+◌, ◌-◌, ◌*◌, ◌/◌, ◌%◌, ◌^◌, ◌≤◌, ◌<◌, ◌≡◌, sym, ap, ◌∙◌, ◌⊎◌, Bool, true, false,
  ◌||◌, ◌==◌, if◌then◌else◌, arith,
}
use native.Mathlib.Nat.{
  add-mul-div_right, add-mul-mod_self_right, div-lt_iff_lt-mul, mod-eq_of_lt, div-eq_of_lt,
  one-le-pow, div-add-mod', mul_assoc, add_comm, mod-lt, mod-le, pow-le-pow_right,
}
use native.Mathlib.Omega.{pow_step}
use beelzebub.Handles.Handle.{
  HandleType, invalid, result, byte, make, get_type, is_type, is_global_or_fatal, get_index,
  get_index_of, no_index,
}
use beelzebub.Handles.Pointer.{
  HandlePointer, pointer_part, data_part, data_unit, from_handle, from_pointer, to_handle,
  set_pointer, set_data, get_pointer, get_data, get_extended_pointer,
}

-- A handle of any kind and index fits in 64 bits, and its kind, its flag and its index are those that
-- it was made with; the index of a result or of an invalid handle is not given out. A kind is a byte
-- and an index 55 bits.
pub make-fields :
    (type : HandleType) (index : ℕ) (global : Bool)
    → type < 256
    → index < 2 ^ 55
    → let h = make type index global in
      (h.value < 2 ^ 64)
      × (get_type h ≡ type)
      × (is_global_or_fatal h ≡ global)
      × (get_index h ≡ (if type == result || type == invalid then no_index else index))
      × ((kind : HandleType) → get_index_of kind h ≡ (if type == kind then index else no_index))
unfolding make get_type is_global_or_fatal get_index get_index_of is_type
make-fields type index true t i =
    let kind : (type + index % 2 ^ 55 * 2 ^ 8 + 2 ^ 63) / 2 ^ 0 % 256 ≡ type = omega arith in
    let place : (type + index % 2 ^ 55 * 2 ^ 8 + 2 ^ 63) / 2 ^ 8 % 2 ^ 55 ≡ index = omega arith in
    (omega arith, kind, ground arith, rw (kind, place), (λ k. rw (kind, place)))
make-fields type index false t i =
    let kind : (type + index % 2 ^ 55 * 2 ^ 8 + 0) / 2 ^ 0 % 256 ≡ type = omega arith in
    let place : (type + index % 2 ^ 55 * 2 ^ 8 + 0) / 2 ^ 8 % 2 ^ 55 ≡ index = omega arith in
    (omega arith, kind, ground arith, rw (kind, place), (λ k. rw (kind, place)))

==-refl : (n : ℕ) → (n == n) ≡ true
==-refl n = ground arith

pow-split : (o k : ℕ) → 2 ^ (o + k) ≡ 2 ^ k * 2 ^ o
pow-split zero k = grind arith
pow-split (suc o) k =
    let step = pow-split o k in
    let e : suc o + k ≡ suc (o + k) = omega arith in
    let left : 2 ^ (suc o + k) ≡ 2 * 2 ^ (o + k) = ap (λ n. 2 ^ n) e ∙ pow_step 2 (o + k) in
    let right : 2 ^ suc o ≡ 2 * 2 ^ o = pow_step 2 o in left ∙ rw (step, right) (grind arith)

-- Two fields of a word, the low one below `unit`.
module _ (low high unit : ℕ) (h : low < unit) where
  low_field : (low + high * unit) % unit ≡ low
  low_field = add-mul-mod_self_right low high unit ∙ mod-eq_of_lt h

  high_field : (low + high * unit) / unit ≡ high
  high_field = add-mul-div_right low high (omega (arith, h)) ∙ rw (div-eq_of_lt h) (omega arith)

module _ (offset : ℕ) (fits : offset ≤ 48) where
  units : data_unit offset * 2 ^ offset ≡ 2 ^ 48
  units =
      let e : offset + (48 - offset) ≡ 48 = omega arith in
      sym (pow-split offset (48 - offset)) ∙ ap (λ n. 2 ^ n) e

  pointer_part-lt : (ptr : ℕ) → pointer_part offset ptr < data_unit offset
  pointer_part-lt ptr =
      (div-lt_iff_lt-mul (one-le-pow offset 2 (omega arith))).1 (rw units (omega arith))

  pointer_part-back :
      (ptr : ℕ) → ptr % 2 ^ offset ≡ 0 → pointer_part offset ptr * 2 ^ offset ≡ ptr % 2 ^ 48
  pointer_part-back ptr aligned =
      let whole : ptr ≡ ptr % 2 ^ 48 + ptr / 2 ^ 48 * data_unit offset * 2 ^ offset =
        rw (mul_assoc (ptr / 2 ^ 48) (data_unit offset) (2 ^ offset), units) (omega arith) in
      let low : ptr % 2 ^ 48 % 2 ^ offset ≡ 0 =
        sym (add-mul-mod_self_right (ptr % 2 ^ 48) (ptr / 2 ^ 48 * data_unit offset) (2 ^ offset))
        ∙ ap (λ n. n % 2 ^ offset) (sym whole)
        ∙ aligned in
      omega (arith, div-add-mod' (ptr % 2 ^ 48) (2 ^ offset), low)

  data_fits : (bits : ℕ) → bits < 2 ^ (7 + offset) → data_part offset bits ≡ bits
  data_fits bits h =
      let wide : 2 ^ (7 + offset) ≤ 2 ^ 55 =
        pow-le-pow_right {n = 2} (omega arith) {i = 7 + offset} {j = 55} (omega arith) in
      ap (λ n. n % 2 ^ 55) (mod-eq_of_lt h) ∙ mod-eq_of_lt (omega (arith, h, wide))

  data_part-twice : (bits : ℕ) → data_part offset (data_part offset bits) ≡ data_part offset bits
  data_part-twice bits = data_fits (data_part offset bits) (
      omega (
        arith,
        mod-lt bits (one-le-pow (7 + offset) 2 (omega arith)),
        mod-le (bits % 2 ^ (7 + offset)) (2 ^ 55),
      ))

  -- An address is canonical where its top 17 bits are alike.
  pub extended-low :
      (ptr : ℕ)
      → ptr < 2 ^ 64
      → (ptr < 2 ^ 47) ⊎ (2 ^ 64 - 2 ^ 47 ≤ ptr)
      → get_extended_pointer (ptr % 2 ^ 48) ≡ ptr
  unfolding get_extended_pointer
  extended-low ptr small canonical = ground arith

  module _ (ptr bits : ℕ) (small : ptr < 2 ^ 64)
      (canonical : (ptr < 2 ^ 47) ⊎ (2 ^ 64 - 2 ^ 47 ≤ ptr)) (aligned : ptr % 2 ^ offset ≡ 0)
      (few : bits < 2 ^ (7 + offset)) where
    packed : HandlePointer
    packed = from_pointer offset ptr bits

    low_part : packed.value % data_unit offset ≡ pointer_part offset ptr
    unfolding packed from_pointer
    low_part =
        low_field (pointer_part offset ptr) (data_part offset bits) (data_unit offset)
          (pointer_part-lt ptr)

    high_part : packed.value / data_unit offset ≡ data_part offset bits
    unfolding packed from_pointer
    high_part =
        high_field (pointer_part offset ptr) (data_part offset bits) (data_unit offset)
          (pointer_part-lt ptr)

    packed-lt : packed.value < 2 ^ 55
    unfolding packed from_pointer
    packed-lt =
        let e : 7 + offset + (48 - offset) ≡ 55 = omega arith in
        let area : data_unit offset * 2 ^ (7 + offset) ≡ 2 ^ 55 =
          sym (pow-split (7 + offset) (48 - offset)) ∙ ap (λ n. 2 ^ n) e in
        rw (data_fits bits few) (below (pointer_part-lt ptr) few area)
      where
        below :
            {low high unit count : ℕ}
            → low < unit
            → high < count
            → unit * count ≡ 2 ^ 55
            → low + high * unit < 2 ^ 55
        below {low} {high} {unit} {count} a b e = grind arith

    -- A pointer and data that are packed together come out again, also by way of a handle of any kind.
    -- The pointer is canonical and its `OFFSET` low bits are zero, the data has 7 + `OFFSET` bits, and
    -- `OFFSET` is at most 48.
    pub from_pointer-roundtrip :
        (kind : HandleType) (glob : Bool)
        → kind < 256
        → let h = from_pointer offset ptr bits in
          (get_pointer offset h ≡ ptr)
          × (get_data offset h ≡ bits)
          × (from_handle offset kind (to_handle offset kind glob h) ≡ h)
    unfolding get_pointer get_data from_handle to_handle packed
    from_pointer-roundtrip kind glob byte = (
      ap get_extended_pointer (ap (λ n. n * 2 ^ offset) low_part ∙ pointer_part-back ptr aligned)
          ∙ extended-low ptr small canonical,
      ap (data_part offset) (high_part ∙ data_fits bits few) ∙ data_fits bits few,
      ap (λ v. record { value = v })
          ((make-fields kind packed.value glob byte packed-lt).4 kind ∙ rw (==-refl kind)),
    )

    -- `SetPointer` changes the pointer and keeps the data, and `SetData` the other way round. The
    -- pointer is canonical and its `OFFSET` low bits are zero, the data has 7 + `OFFSET` bits, and
    -- `OFFSET` is at most 48.
    pub set-independent :
        (h : HandlePointer)
        → (get_pointer offset (set_pointer offset ptr h) ≡ ptr)
          × (get_data offset (set_pointer offset ptr h) ≡ get_data offset h)
          × (get_pointer offset (set_data offset bits h) ≡ get_pointer offset h)
          × (get_data offset (set_data offset bits h) ≡ bits)
    unfolding get_pointer get_data set_pointer set_data
    set-independent h =
        let unit = data_unit offset in
        let kept = data_part offset (h.value / unit) in
        let part = pointer_part offset ptr in
        let flip = add_comm (kept * unit) part in
        let rest : h.value % unit < unit =
          mod-lt h.value (one-le-pow (48 - offset) 2 (omega arith)) in
        (
          ap get_extended_pointer (
                ap (λ n. n % unit * 2 ^ offset) flip
                ∙ ap (λ n. n * 2 ^ offset) (low_field part kept unit (pointer_part-lt ptr))
                ∙ pointer_part-back ptr aligned)
              ∙ extended-low ptr small canonical,
          ap (λ n. data_part offset (n / unit)) flip
              ∙ ap (data_part offset) (high_field part kept unit (pointer_part-lt ptr))
              ∙ data_part-twice (h.value / unit),
          ap (λ n. get_extended_pointer (n * 2 ^ offset))
              (low_field (h.value % unit) (data_part offset bits) unit rest),
          ap (data_part offset)
                (high_field (h.value % unit) (data_part offset bits) unit rest ∙ data_fits bits few)
              ∙ data_fits bits few,
        )
