-- ===== src/BigInt/Powers/Tables.antt =====
-- The tables of powers of 10 in libs/common/src/utils/bigint.cpp.
use beelzebub.Common.{ℕ, List, [], ◌∷◌}

abbrev pub powers_of_10_small : List ℕ
powers_of_10_small = 1 ∷ 10 ∷ 100 ∷ 1000 ∷ 10000 ∷ 100000 ∷ 1000000 ∷ 10000000 ∷ []

-- A number of words, and the words.
abbrev pub PowerOf10 : Type 0
PowerOf10 = ℕ × List ℕ

abbrev pub power_of_10_8 : PowerOf10
power_of_10_8 = (1, 100000000 ∷ [])

abbrev pub power_of_10_16 : PowerOf10
power_of_10_16 = (2, 0x6fc10000 ∷ 0x002386f2 ∷ [])

abbrev pub power_of_10_32 : PowerOf10
power_of_10_32 = (4, 0x00000000 ∷ 0x85acef81 ∷ 0x2d6d415b ∷ 0x000004ee ∷ [])

abbrev pub power_of_10_64 : PowerOf10
power_of_10_64 = (
  7,
  0x00000000 ∷ 0x00000000 ∷ 0xbf6a1f01 ∷ 0x6e38ed64 ∷ 0xdaa797ed ∷ 0xe93ff9f4 ∷ 0x00184f03 ∷ [],
)

abbrev pub power_of_10_128 : PowerOf10
power_of_10_128 = (
  14,
  0x00000000 ∷ 0x00000000 ∷ 0x00000000 ∷ 0x00000000 ∷ 0x2e953e01 ∷ 0x03df9909 ∷ 0x0f1538fd
      ∷ 0x2374e42f ∷ 0xd3cff5ec ∷ 0xc404dc08 ∷ 0xbccdb0da ∷ 0xa6337f19 ∷ 0xe91f2603 ∷ 0x0000024e
      ∷ [],
)

abbrev pub power_of_10_256 : PowerOf10
power_of_10_256 = (
  27,
  0x00000000 ∷ 0x00000000 ∷ 0x00000000 ∷ 0x00000000 ∷ 0x00000000 ∷ 0x00000000 ∷ 0x00000000
      ∷ 0x00000000 ∷ 0x982e7c01 ∷ 0xbed3875b ∷ 0xd8d99f72 ∷ 0x12152f87 ∷ 0x6bde50c6 ∷ 0xcf4a6e70
      ∷ 0xd595d80f ∷ 0x26b2716e ∷ 0xadc666b0 ∷ 0x1d153624 ∷ 0x3c42d35a ∷ 0x63ff540e ∷ 0xcc5573c0
      ∷ 0x65f9ef17 ∷ 0x55bc28f2 ∷ 0x80dcc7f7 ∷ 0xf46eeddc ∷ 0x5fdcefce ∷ 0x000553f7 ∷ [],
)

abbrev pub powers_of_10_big : List PowerOf10
powers_of_10_big =
    power_of_10_8 ∷ power_of_10_16 ∷ power_of_10_32 ∷ power_of_10_64 ∷ power_of_10_128
    ∷ power_of_10_256 ∷ []
