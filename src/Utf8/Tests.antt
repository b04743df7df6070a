-- ===== src/Utf8/Tests.antt =====
-- The decoder of utf8.cpp at concrete strings.
use beelzebub.Common.{ℕ, ◌≡◌, refl, ◌==◌, if◌then◌else◌, none, some}
use beelzebub.Utf8.{get_utf8_codepoint, read_rest}
use beelzebub.Utf8.Reading.{get_utf8_codepoint-next}

-- The two bytes of U+00E9 and spaces.
abbrev accented : ℕ → ℕ
accented n = if n == 0 then 0xC3 else if n == 1 then 0xA9 else 0x20

-- The same two bytes before a stray third one that continues.
abbrev accented_again : ℕ → ℕ
accented_again n = if n == 0 then 0xC3 else if n == 1 then 0xA9 else if n == 2 then 0xA9 else 0x20

get_utf8_codepoint-next_example : (get_utf8_codepoint accented 0).next ≡ none
get_utf8_codepoint-next_example = get_utf8_codepoint-next accented 0

reads_three : (get_utf8_codepoint accented_again 0).next ≡ some 2
unfolding get_utf8_codepoint read_rest
reads_three = refl
