-- ===== src/Utf8.antt =====
-- `GetUtf8Codepoint` of libs/common/src/utils/utf8.cpp: the decoder of one character of a string.
pub mod Reading
mod Tests
use beelzebub.Common.{
  ℕ, zero, suc, ◌+◌, ◌-◌, ◌*◌, ◌/◌, ◌%◌, ◌^◌, ltb, ◌==◌, if◌then◌else◌, Option, none, some,
}

abbrev pub u32 : ℕ → ℕ
u32 n = n % 2 ^ 32

-- `Next` is the address of what follows, `none` for null, and `Char` the bits of a 32-bit `wchar_t`.
pub record DecodedCodepoint : Type 0 where
  pub next : Option ℕ
  pub char : ℕ

-- `__WCHAR_MAX__`.
abbrev pub wchar_max : ℕ
wchar_max = 2 ^ 31 - 1

-- The label `failure`.
abbrev pub failure : DecodedCodepoint
failure = record { next = none; char = wchar_max }

-- The loop, of which each round reads one byte. Without fuel it has not ended.
unfoldable pub read_rest : ℕ → (ℕ → ℕ) → ℕ → ℕ → ℕ → DecodedCodepoint
read_rest zero bytes chr next char = failure
read_rest (suc fuel) bytes chr next char =
    let c = bytes (chr + 1) in
    let char' = u32 (char * 2 ^ 6) + c % 2 ^ 6 in
    let rest = read_rest fuel bytes (chr + 1) next char' in
    if c / 2 ^ 6 == 2
    then if ltb (chr + 1) next then rest else record { next = some next; char = char' }
    else failure

-- `bytes` is memory, and `chr` the address of the first byte.
unfoldable pub get_utf8_codepoint : (ℕ → ℕ) → ℕ → DecodedCodepoint
unfolding read_rest
get_utf8_codepoint bytes chr =
    let c1 = bytes chr in
    let read : ℕ → ℕ → DecodedCodepoint =
      λ length char. read_rest length bytes chr (chr + length) char in
    if ltb c1 0xE0
    then if ltb c1 0xC0
      then if ltb c1 0x80 then record { next = some (chr + 1); char = c1 % 0x80 } else failure
      else read 2 (c1 % 0x20)
    else if ltb c1 0xF8
    then if ltb c1 0xF0 then read 3 (c1 % 0x10) else read 4 (c1 % 8)
    else if ltb c1 0xFC
    then read 5 (c1 % 4)
    else read 6 (c1 % 2)
