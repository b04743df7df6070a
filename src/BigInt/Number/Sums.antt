-- ===== src/BigInt/Number/Sums.antt =====
-- Sums and differences of `BigUInt` in sysheaders/common/beel/utils/bigint.hpp.
use beelzebub.Common.{
  suc, sym, true, leb, ==_iff, lt→ltb, ℕ, ◌+◌, ◌-◌, ◌*◌, ◌%◌, ◌≤◌, ◌<◌, ◌≡◌, refl, subst, ap, ◌∙◌,
  List, false, ◌&&◌, ltb, ◌==◌, ltb→ge, ltb→lt, if◌then◌else◌, Bool-cases, dec_lt, inl, inr, arith,
}
use native.Mathlib.Nat.{mul_assoc, mul-add}
use beelzebub.BigInt.{same, apart, drop, big_int_add, big_int_sub}
use beelzebub.BigInt.Words.{value, weight, AreWords, value-lt}
use beelzebub.BigInt.Adding.{big_int_add-value, big_int_sub-value}
use beelzebub.BigInt.Weights.{remainder, weight_mono, weight-add}
use beelzebub.BigInt.Comparing.{value-split}
use beelzebub.BigInt.Shifting.{put}
use beelzebub.BigInt.Shifting.Moves.{value-put}
use beelzebub.BigInt.Number.{BigUInt, Balanced, balance, add, add_assign, subtract}
use beelzebub.BigInt.Number.Balancing.{
  number, number-lt, IsNumber, balance-Balances, Makes, carry-le, with_carry-Makes,
}

module _ (max_size : ℕ) (fresh : List ℕ) (l r : BigUInt) (words : AreWords fresh)
    (i : IsNumber max_size l) (j : IsNumber max_size r) where
  -- `operator +` of `BigUInt`, on operands whose words have 32 bits and whose sizes are at most `MaxSize`,
  -- makes the sum, modulo the weight of `MaxSize` words, in an object of which the same holds. `Balance`
  -- writes in the operands, but keeps the numbers that they stand for. The words that the new object has
  -- before it is written have 32 bits.
  pub add-Makes :
      let s = add max_size fresh l r in
      Makes max_size (number l + number r) s.0 × (number s.1 ≡ number l) × (number s.2 ≡ number r)
  unfolding add
  add-Makes =
      let b = balance l r in
      let k = balance-Balances l r i j in
      let sum =
        big_int_add-value fresh (apart b.left.data_words) (apart b.right.data_words) b.size 0
          words in
      let made = big_int_add fresh (apart b.left.data_words) (apart b.right.data_words) b.size 0 in
      let whole : value b.size made.1 + weight b.size * made.0 ≡ number l + number r =
        let x = k.left in let y = k.right in omega (arith, sum.0) in
      let low = value-lt b.size b.left.data_words k.words_left in
      let high = value-lt b.size b.right.data_words k.words_right in
      let one =
        carry-le b.size (value b.size made.1) made.0 (number l) (number r) whole
          (let x = k.left in omega arith) (let y = k.right in omega arith) in
      (
        with_carry-Makes max_size b.size made.0 (number l + number r) made.1 sum.1.fits k.within one
            whole,
        k.kept_left,
        k.kept_right,
      )

  -- `operator -` of `BigUInt`, on operands and in a new object as for the sum, makes the difference in as
  -- many words as the longer operand has. Where the second number is the larger, the weight of these
  -- words is added. The operands keep their numbers.
  pub subtract-difference :
      let d = subtract max_size fresh l r in
      (d.0.current_size
        ≡ (if ltb r.current_size l.current_size then l.current_size else r.current_size))
      × (number d.0 + number r
          ≡ number l + (if ltb (number l) (number r) then weight d.0.current_size else 0))
      × IsNumber max_size d.0
      × (number d.1 ≡ number l)
      × (number d.2 ≡ number r)
  unfolding subtract
  subtract-difference =
      let b = balance l r in
      let k = balance-Balances l r i j in
      let low = k.left in
      let high = k.right in
      let made = big_int_sub fresh (apart b.left.data_words) (apart b.right.data_words) b.size 0 in
      let d =
        big_int_sub-value fresh (apart b.left.data_words) (apart b.right.data_words) b.size 0 words
          k.words_left k.words_right (omega arith) in
      let v = value-lt b.size made.1 d.2.fits in
      let w = subst (λ n. n < weight b.size) low (value-lt b.size b.left.data_words k.words_left) in
      (
        k.size,
        elim (Bool-cases (ltb (number l) (number r))) [
          | inl e ↦
              let less = ltb→lt _ _ e in
              let once : made.0 ≡ 1 =
                borrowed b.size made.0 (number l) (number r) (value b.size made.1)
                  (omega (arith, d.0)) d.1 less in
              rw e (omega (arith, d.0, ap (λ (c : ℕ). weight b.size * c) once))
          | inr e ↦
              let more = ltb→ge _ _ e in
              let none : made.0 ≡ 0 =
                unborrowed b.size made.0 (number l) (number r) (value b.size made.1)
                  (omega (arith, d.0)) d.1 more v in
              rw e (omega (arith, d.0, ap (λ (c : ℕ). weight b.size * c) none))
        ],
        record { words = d.2.fits; within = k.within },
        k.kept_left,
        k.kept_right,
      )
    where
      borrowed : (n c x y v : ℕ) → v + y ≡ x + weight n * c → c ≤ 1 → x < y → c ≡ 1
      borrowed n c x y v e one p = elim (dec_lt 0 c) [
        | yes h ↦ omega arith
        | no h ↦
            let z : c ≡ 0 = omega arith in absurd (omega (arith, ap (λ (k : ℕ). weight n * k) z))
      ]

      unborrowed : (n c x y v : ℕ) → v + y ≡ x + weight n * c → c ≤ 1 → y ≤ x → v < weight n → c ≡ 0
      unborrowed n c x y v e one p q = elim (dec_lt 0 c) [
        | no h ↦ omega arith
        | yes h ↦
            let z : c ≡ 1 = omega arith in absurd (omega (arith, ap (λ (k : ℕ). weight n * k) z))
      ]

module _ (max_size : ℕ) (l r : BigUInt) (i : IsNumber max_size l) (j : IsNumber max_size r) where
  -- `operator +=` of `BigUInt` makes the sum, as `operator +` does, where the left operand has at least as
  -- many words as the right one.
  pub add_assign-Makes :
      r.current_size ≤ l.current_size
      → let s = add_assign max_size l r in
        Makes max_size (number l + number r) s.0 × (number s.1 ≡ number r)
  unfolding add_assign
  add_assign-Makes long =
      let b = balance l r in
      let k = balance-Balances l r i j in
      let sum =
        big_int_add-value b.left.data_words same (apart b.right.data_words) b.size 0 k.words_left in
      let made = big_int_add b.left.data_words same (apart b.right.data_words) b.size 0 in
      let size : b.size ≡ l.current_size = longest l r b k.size long in
      let whole : value b.size made.1 + weight b.size * made.0 ≡ number l + number r =
        let x = k.left in let y = k.right in omega (arith, sum.0) in
      let low = value-lt b.size b.left.data_words k.words_left in
      let high = value-lt b.size b.right.data_words k.words_right in
      let one =
        carry-le b.size (value b.size made.1) made.0 (number l) (number r) whole
          (let x = k.left in omega arith) (let y = k.right in omega arith) in
      (
        with_carry-Makes max_size l.current_size made.0 (number l + number r) made.1 sum.1.fits
            i.within one
            (subst (λ n. value n made.1 + weight n * made.0 ≡ number l + number r) size whole),
        k.kept_right,
      )
    where
      longest :
          (l r : BigUInt) (b : Balanced)
          → b.size ≡ (if ltb r.current_size l.current_size then l.current_size else r.current_size)
          → r.current_size ≤ l.current_size
          → b.size ≡ l.current_size
      longest l r b s m = ground arith

  -- Where the left operand has fewer words than the right one, `operator +=` keeps of the sum only what
  -- fits in those few words, though the words of the right one may hold it. A carry out of the words of
  -- the right one becomes a word 1 behind the few, and raises the size by one. Both operands are well
  -- formed, as for the sum.
  pub add_assign_short-lost :
      l.current_size < r.current_size
      → let s = (add_assign max_size l r).0 in
        let carried = leb (weight r.current_size) (number l + number r) in
        (s.current_size ≡ (if carried then l.current_size + 1 else l.current_size))
        × (number s
            ≡ (number l + number r) % weight l.current_size
              + (if carried then weight l.current_size else 0))
  unfolding add_assign
  add_assign_short-lost short =
      let b = balance l r in
      let k = balance-Balances l r i j in
      let m = l.current_size in
      let n = r.current_size in
      let sum =
        big_int_add-value b.left.data_words same (apart b.right.data_words) b.size 0 k.words_left in
      let made = big_int_add b.left.data_words same (apart b.right.data_words) b.size 0 in
      let size : b.size ≡ n =
        let s = k.size in let g = unlonger m n short in k.size ∙ ap (λ c. if c then m else n) g in
      let whole : value n made.1 + weight n * made.0 ≡ number l + number r =
        subst (λ n. value n made.1 + weight n * made.0 ≡ number l + number r) size
          (let x = k.left in let y = k.right in omega (arith, sum.0)) in
      let one : made.0 ≤ 1 =
        let wide = weight_mono m n (omega arith) in
        let x = number-lt l i in
        let y = number-lt r j in
        carry-le n (value n made.1) made.0 (number l) (number r) whole (omega arith) y in
      let top = value-lt n made.1 sum.1.fits in
      let low : value m made.1 ≡ (number l + number r) % weight m =
        low_words m n made.0 (number l + number r) made.1 (omega arith) sum.1.fits whole in
      elim (Bool-cases (made.0 == 1)) [
        | inl c ↦
            let once = ap (λ (c : ℕ). weight n * c) ((==_iff made.0 1).0 c) in
            let carried : leb (weight n) (number l + number r) ≡ true = le→leb _ _ (omega arith) in
            let room : ltb m max_size ≡ true = let w = j.within in lt→ltb _ _ (omega arith) in
            let next : m + 1 ≡ suc m = omega arith in
            rw (c, carried, room, ◌&&◌)
              (refl, ap (λ k. value k (put m 1 made.1)) next ∙ omega (arith, value-put m 1 made.1))
        | inr c ↦
            let none : made.0 ≡ 0 = ground arith in
            let nothing = ap (λ (c : ℕ). weight n * c) none in
            let uncarried : leb (weight n) (number l + number r) ≡ false =
              gt→leb _ _ (omega arith) in
            rw (c, uncarried, ◌&&◌) (refl, omega arith)
      ]
    where
      unlonger : (m n : ℕ) → m < n → ltb n m ≡ false
      unlonger m n h = ground arith

      le→leb : (a b : ℕ) → a ≤ b → leb a b ≡ true
      le→leb a b h = ground arith

      gt→leb : (a b : ℕ) → b < a → leb a b ≡ false
      gt→leb a b h = ground arith

      low_words :
          (m n c s : ℕ) (words : List ℕ)
          → m < n
          → AreWords words
          → value n words + weight n * c ≡ s
          → value m words ≡ s % weight m
      low_words m n c s words l h whole =
          let e : m + (n - m) ≡ n = omega arith in
          let w = weight (n - m) in
          let split = value-split m (n - m) words in
          let parts : weight n * c ≡ weight m * (w * c) =
            ap (λ (k : ℕ). k * c) (sym (ap weight e) ∙ weight-add m (n - m))
            ∙ mul_assoc (weight m) w c in
          let v = value (n - m) (drop m words) in
          remainder (value m words) (weight m) (v + w * c) s
            (omega (arith, split, ap (λ k. value k words) e, mul-add (weight m) v (w * c)))
            (value-lt m words h)
