-- ===== src/Handles/Results.antt =====
-- The chain of results in a `Handle` of handles.h, as a list.
use beelzebub.Common.{
  ℕ, zero, suc, ◌+◌, ◌*◌, ◌/◌, ◌%◌, ◌^◌, not, ◌<◌, ◌≡◌, refl, ap, ap₂, ◌∙◌, List, [], ◌∷◌, ◌++◌,
  true, false, ltb, lt→ltb, ◌==◌, if◌then◌else◌, take, take-take-suc, All, length, dec_lt, arith,
}
use beelzebub.Handles.{HandleResult, is_okay}
use beelzebub.Handles.Handle.{
  Handle, byte, result, make_result, is_type, get_type, get_result, get_result_count,
  with_preppended_result, with_result_count, is_okay_result, is_global_or_fatal,
}

-- A result handle in a 64-bit word.
pub record IsResultHandle (h : Handle) : Type 0 where
  pub small : h.value < 2 ^ 64
  pub kind : h.value % 256 ≡ 1

abbrev pub all_results : Handle → List ℕ
all_results h = byte 1 h ∷ byte 2 h ∷ byte 3 h ∷ byte 4 h ∷ byte 5 h ∷ byte 6 h ∷ []

-- How many results a handle with this count shows.
pub shown : ℕ → ℕ
shown count = if ltb count 6 then count + 1 else 6

-- The results of a handle, the latest first.
pub results : Handle → List ℕ
results h = take (shown (get_result_count h)) (all_results h)

-- What a result handle becomes when a result is put before the others.
record Prepended (res : HandleResult) (h h' : Handle) : Type 0 where
  proper : IsResultHandle h'
  listed : all_results h' ≡ res ∷ byte 1 h ∷ byte 2 h ∷ byte 3 h ∷ byte 4 h ∷ byte 5 h ∷ []
  count :
      get_result_count h'
      ≡ (if ltb (get_result_count h) 6 then get_result_count h + 1 else get_result_count h)
  fatal : h'.value / 2 ^ 63 ≡ h.value / 2 ^ 63

-- The word is a flag, a count, seven zero or dropped bits, five old results, a new one and the kind.
built :
    (h h' : Handle) (res flag count : ℕ)
    → res < 256
    → h.value % 256 ≡ 1
    → flag < 2
    → count < 8
    → h'.value
      ≡ flag * 2 ^ 63 + count * 2 ^ 60 + h.value / 2 ^ 8 % 2 ^ 40 * 2 ^ 16 + res * 2 ^ 8 + 1
    → IsResultHandle h'
      × (all_results h' ≡ res ∷ byte 1 h ∷ byte 2 h ∷ byte 3 h ∷ byte 4 h ∷ byte 5 h ∷ [])
      × (byte 7 h' / 16 % 8 ≡ count)
      × (h'.value / 2 ^ 63 ≡ flag)
built h h' res flag count a b c d e = (
  record { small = omega arith; kind = omega arith },
  ap₂ ◌∷◌ (omega arith) (
      ap₂ ◌∷◌ (omega arith) (
        ap₂ ◌∷◌ (omega arith)
          (ap₂ ◌∷◌ (omega arith) (ap₂ ◌∷◌ (omega arith) (ap₂ ◌∷◌ (omega arith) refl))))),
  omega arith,
  omega arith,
)

with_preppended_result-Prepended :
    (res : HandleResult) (h : Handle)
    → res < 256
    → IsResultHandle h
    → Prepended res h (with_preppended_result res h)
unfolding with_preppended_result is_type get_result_count
with_preppended_result-Prepended res h lt ok = elim (dec_lt (byte 7 h / 16 % 8) 6) [
  | yes few ↦
      let kind : (byte 0 h == result) ≡ true = ground arith in
      let room : ltb (byte 7 h / 16 % 8) 6 ≡ true = lt→ltb _ _ few in
      let (p, l, c, f) =
        built h (with_preppended_result res h) res (h.value / 2 ^ 63) (byte 7 h / 16 % 8 + 1) lt
          ok.kind (let small = ok.small in omega arith) (omega arith)
          (let small = ok.small in let one = ok.kind in rw (kind, room) (omega arith)) in
      record { proper = p; listed = l; count = c ∙ rw room; fatal = f }
  | no many ↦
      let kind : (byte 0 h == result) ≡ true = ground arith in
      let room : ltb (byte 7 h / 16 % 8) 6 ≡ false = ground arith in
      let (p, l, c, f) =
        built h (with_preppended_result res h) res (h.value / 2 ^ 63) (byte 7 h / 16 % 8) lt ok.kind
          (let small = ok.small in omega arith) (omega arith)
          (let small = ok.small in let one = ok.kind in rw (kind, room) (omega arith)) in
      record { proper = p; listed = l; count = c ∙ rw room; fatal = f }
]

-- Six bytes with a new one before them, cut to the new count.
shown-cons :
    (count res a b c d e f : ℕ)
    → take (shown (if ltb count 6 then count + 1 else count)) (res ∷ a ∷ b ∷ c ∷ d ∷ e ∷ [])
      ≡ take 6 (res ∷ take (shown count) (a ∷ b ∷ c ∷ d ∷ e ∷ f ∷ []))
unfolding shown
shown-cons zero res a b c d e f = refl
shown-cons (suc zero) res a b c d e f = refl
shown-cons (suc (suc zero)) res a b c d e f = refl
shown-cons (suc (suc (suc zero))) res a b c d e f = refl
shown-cons (suc (suc (suc (suc zero)))) res a b c d e f = refl
shown-cons (suc (suc (suc (suc (suc zero))))) res a b c d e f = refl
shown-cons (suc (suc (suc (suc (suc (suc count)))))) res a b c d e f = ground arith

-- `WithPreppendedResult` puts a result before the others and drops all behind the sixth.
pub results-with_preppended_result :
    (res : HandleResult) (h : Handle)
    → res < 256
    → IsResultHandle h
    → results (with_preppended_result res h) ≡ take 6 (res ∷ results h)
unfolding results
results-with_preppended_result res h lt ok =
    let p = with_preppended_result-Prepended res h lt ok in
    rw (p.listed, p.count) (shown-cons (get_result_count h) res _ _ _ _ _ _)

-- Results that are put before a first one, the head of the list last.
pub with_results : List HandleResult → HandleResult → Handle
with_results [] first = make_result first
with_results (res ∷ rs) first = with_preppended_result res (with_results rs first)

abbrev pub latest : List HandleResult → HandleResult → HandleResult
latest [] first = first
latest (res ∷ rs) first = res

-- What a handle tells of the results put into it.
pub record Tells (rs : List HandleResult) (first : HandleResult) (h : Handle) : Type 0 where
  pub proper : IsResultHandle h
  pub listed : results h ≡ take 6 (rs ++ first ∷ [])
  pub counted : get_result_count h ≡ (if ltb (length rs) 6 then length rs else 6)
  pub primary : get_result h ≡ latest rs first
  pub okay : is_okay_result h ≡ is_okay (latest rs first)

make_result-Tells : (first : HandleResult) → first < 256 → Tells [] first (make_result first)
unfolding make_result results get_result_count get_result is_okay_result shown
make_result-Tells first lt = record {
  proper = record { small = omega arith; kind = omega arith };
  listed =
      let one : (1 + first * 256) / 72057594037927936 % 256 / 16 % 8 ≡ 0 = omega arith in
      rw one (ap (λ r. r ∷ []) (omega arith));
  counted = omega arith;
  primary = omega arith;
  okay = ground arith;
}

okay_bit :
    (h : Handle) (res : HandleResult)
    → IsResultHandle h
    → byte 1 h ≡ res
    → is_okay_result h ≡ is_okay res
unfolding is_okay_result
okay_bit h res ok e = let kind = ok.kind in ground arith

-- Whatever results are put into a handle, in whatever number, it stays a result handle in 64 bits and
-- lists the latest six of them; its count is the number of results put before the first, or 6; its
-- primary result is the latest one, and it is okay exactly when that one is. Results are bytes.
pub with_results-Tells :
    (rs : List HandleResult) (first : HandleResult)
    → All (λ r. r < 256) rs
    → first < 256
    → Tells rs first (with_results rs first)
unfolding with_results get_result
with_results-Tells [] first all lt = make_result-Tells first lt
with_results-Tells (res ∷ rs) first all lt =
    let t = with_results-Tells rs first all.1 lt in
    let p = with_preppended_result-Prepended res (with_results rs first) all.0 t.proper in
    let primary : byte 1 (with_preppended_result res (with_results rs first)) ≡ res =
      ap (λ xs. nth xs) p.listed in
    record {
      proper = p.proper;
      listed =
          results-with_preppended_result res (with_results rs first) all.0 t.proper
          ∙ ap (λ xs. take 6 (res ∷ xs)) t.listed
          ∙ ap (◌∷◌ res) (take-take-suc 5 (rs ++ first ∷ []));
      counted = p.count ∙ rw t.counted (ground arith);
      primary = primary;
      okay = okay_bit _ res p.proper primary;
    }
  where
    nth : List ℕ → ℕ
    nth [] = 0
    nth (x ∷ xs) = x

-- `WithResultCount` stores the count, in three bits, and keeps the kind, the results and the flag
-- of a handle in 64 bits.
pub with_result_count-keeps :
    (count : ℕ) (h : Handle)
    → h.value < 2 ^ 64
    → let h' = with_result_count count h in
      (get_result_count h' ≡ count % 8)
      × (get_type h' ≡ get_type h)
      × (all_results h' ≡ all_results h)
      × (is_global_or_fatal h' ≡ is_global_or_fatal h)
unfolding with_result_count get_result_count get_type is_global_or_fatal
with_result_count-keeps count h small =
    let flag : (h.value / 2 ^ 63 * 2 ^ 63 + count % 8 * 2 ^ 60 + h.value % 2 ^ 60)
          / 2 ^ 56
          % 256
          / 128
        ≡ h.value / 2 ^ 56 % 256 / 128 =
      omega arith in
    (
      omega arith,
      omega arith,
      ap₂ ◌∷◌ (omega arith) (
          ap₂ ◌∷◌ (omega arith) (
            ap₂ ◌∷◌ (omega arith)
              (ap₂ ◌∷◌ (omega arith) (ap₂ ◌∷◌ (omega arith) (ap₂ ◌∷◌ (omega arith) refl))))),
      ap (λ n. not (n == 0)) flag,
    )
