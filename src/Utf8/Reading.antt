-- ===== src/Utf8/Reading.antt =====
-- How far `GetUtf8Codepoint` of utf8.cpp reads.
use beelzebub.Common.{
  ℕ, zero, suc, ◌+◌, ◌*◌, ◌/◌, ◌%◌, ◌^◌, ◌≤◌, ◌<◌, ◌≡◌, refl, ltb, lt→ltb, dec_lt, ◌∙◌, ◌==◌,
  if◌then◌else◌, Bool, true, false, not, ◌&&◌, ◌||◌, Option, none, some, arith,
}
use beelzebub.Utf8.{DecodedCodepoint, read_rest, get_utf8_codepoint, failure, u32}

-- Whether the `n` bytes from `a` on are ones that continue a character.
abbrev pub continues : ℕ → (ℕ → ℕ) → ℕ → Bool
continues zero bytes a = true
continues (suc n) bytes a = (bytes a / 2 ^ 6 == 2) && continues n bytes (a + 1)

-- How many bytes a character has by its first one, or 0 where no character starts with it.
abbrev pub sequence_length : ℕ → ℕ
sequence_length c =
    if ltb c 0x80
    then 1
    else if ltb c 0xC0
    then 0
    else if ltb c 0xE0
    then 2
    else if ltb c 0xF0
    then 3
    else if ltb c 0xF8
    then 4
    else if ltb c 0xFC
    then 5
    else 6

read_rest-next :
    (n : ℕ) (bytes : ℕ → ℕ) (chr next char : ℕ)
    → next ≡ chr + suc n
    → (read_rest (suc n) bytes chr next char).next
      ≡ (if continues (suc n) bytes (chr + 1) then some next else none)
unfolding read_rest
read_rest-next zero bytes chr next char e =
    let last : ltb (chr + 1) next ≡ false = ground arith in rw last (ground arith)
read_rest-next (suc n) bytes chr next char e =
    let more : ltb (chr + 1) next ≡ true = ground arith in
    let rest =
      read_rest-next n bytes (chr + 1) next (u32 (char * 2 ^ 6) + bytes (chr + 1) % 2 ^ 6)
        (omega arith) in
    rw more (go (bytes (chr + 1) / 2 ^ 6 == 2) _ _ rest)
  where
    go :
        (b : Bool) (d : DecodedCodepoint) (c : Bool)
        → d.next ≡ (if c then some next else none)
        → (if b then d else failure).next ≡ (if b && c then some next else none)
    go true d c h = h
    go false d c h = refl

longer :
    (n : ℕ) (bytes : ℕ → ℕ) (chr char : ℕ)
    → (read_rest (suc n) bytes chr (chr + suc n) char).next
      ≡ (if not (continues (suc n) bytes (chr + 1)) then none else some (chr + suc n))
longer n bytes chr char =
    read_rest-next n bytes chr (chr + suc n) char refl ∙ flip (continues (suc n) bytes (chr + 1))
  where
    flip :
        (b : Bool)
        → (if b then some (chr + suc n) else none) ≡ (if not b then none else some (chr + suc n))
    flip true = refl
    flip false = refl

below : (c m : ℕ) → c < m → ltb c m ≡ true
below c m h = lt→ltb c m h

above : (c m : ℕ) → m ≤ c → ltb c m ≡ false
above c m h = ground arith

-- What the decoder gives as `Next`, and `none` for null.
abbrev pub next_of : (ℕ → ℕ) → ℕ → Option ℕ
next_of bytes chr =
    let length = sequence_length (bytes chr) in
    if length == 1
    then some (chr + 1)
    else if (length == 0) || not (continues length bytes (chr + 1))
    then none
    else some (chr + length)

from_three :
    (bytes : ℕ → ℕ) (chr : ℕ)
    → 0xE0 ≤ bytes chr
    → (get_utf8_codepoint bytes chr).next ≡ next_of bytes chr
unfolding get_utf8_codepoint
from_three bytes chr lo =
    let c = bytes chr in
    let x = above c 0x80 (omega (arith, lo)) in
    let y = above c 0xC0 (omega (arith, lo)) in
    let z = above c 0xE0 lo in
    elim (dec_lt c 0xF0) [
      | yes a ↦
          rw (x, y, z, below c 0xF0 a, below c 0xF8 (omega (arith, a)))
            (longer 2 bytes chr (c % 0x10))
      | no a ↦ elim (dec_lt c 0xF8) [
        | yes b ↦
            rw (x, y, z, above c 0xF0 (omega (arith, a)), below c 0xF8 b)
              (longer 3 bytes chr (c % 8))
        | no b ↦
            let u = above c 0xF0 (omega (arith, a)) in
            let v = above c 0xF8 (omega (arith, b)) in
            elim (dec_lt c 0xFC) [
              | yes d ↦ rw (x, y, z, u, v, below c 0xFC d) (longer 4 bytes chr (c % 4))
              | no d ↦
                  rw (x, y, z, u, v, above c 0xFC (omega (arith, d))) (longer 5 bytes chr (c % 2))
            ]
      ]
    ]

-- `GetUtf8Codepoint` succeeds on a byte below 0x80, and gives the byte behind it. On the first byte of a
-- longer character it succeeds only if as many bytes as the character has continue it after the first
-- one, which is one more than a character holds, and then gives the last of them. It fails elsewhere.
pub get_utf8_codepoint-next :
    (bytes : ℕ → ℕ) (chr : ℕ) → (get_utf8_codepoint bytes chr).next ≡ next_of bytes chr
unfolding get_utf8_codepoint
get_utf8_codepoint-next bytes chr =
    let c = bytes chr in
    elim (dec_lt c 0x80) [
      | yes a ↦
          rw (below c 0x80 a, below c 0xC0 (omega (arith, a)), below c 0xE0 (omega (arith, a))) refl
      | no a ↦ elim (dec_lt c 0xC0) [
        | yes b ↦
            rw (above c 0x80 (omega (arith, a)), below c 0xC0 b, below c 0xE0 (omega (arith, b)))
              refl
        | no b ↦ elim (dec_lt c 0xE0) [
          | yes d ↦
              rw (above c 0x80 (omega (arith, a)), above c 0xC0 (omega (arith, b)), below c 0xE0 d)
                (longer 1 bytes chr (c % 0x20))
          | no d ↦ from_three bytes chr (omega (arith, d))
        ]
      ]
    ]
