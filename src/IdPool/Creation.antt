-- ===== src/IdPool/Creation.antt =====
-- The constructor of id.pool.hpp makes every identifier free, in rising order.
use beelzebub.Common.{
  IsAbsent, IsDistinct, ℕ, zero, suc, ◌+◌, ◌-◌, ◌*◌, ◌%◌, ◌^◌, ◌≤◌, ◌<◌, ◌≡◌, refl, List, [], ◌∷◌,
  All, ℕ_discrete, arith,
}
use beelzebub.IdPool.{no_next, store, create, link_entries}
use beelzebub.IdPool.Free.{IsLinked, IsPool}

-- `x`, `x + 1` and so on, `n` numbers.
unfoldable pub rising : ℕ → ℕ → List ℕ
rising x zero = []
rising x (suc n) = x ∷ rising (x + 1) n

rising-within : (n x bound : ℕ) → x + n ≤ bound → All (λ y. y < bound) (rising x n)
unfolding rising
rising-within zero x bound h = tt
rising-within (suc n) x bound h = (omega arith, rising-within n (x + 1) bound (omega arith))

rising-IsAbsent : (n x i : ℕ) → i < x → IsAbsent i (rising x n)
unfolding rising
rising-IsAbsent zero x i h = tt
rising-IsAbsent (suc n) x i h = (omega arith, rising-IsAbsent n (x + 1) i (omega arith))

rising-IsDistinct : (n x : ℕ) → IsDistinct (rising x n)
unfolding rising
rising-IsDistinct zero x = tt
rising-IsDistinct (suc n) x =
    (rising-IsAbsent n (x + 1) x (omega arith), rising-IsDistinct n (x + 1))

rising-all : (n x i : ℕ) → x ≤ i → i < x + n → IsAbsent i (rising x n) → ⊥
unfolding rising
rising-all zero x i lo hi a = omega arith
rising-all (suc n) x i lo hi a = rising-all n (x + 1) i (omega (arith, a.0)) (omega arith) a.1

link_entries-below : (n j : ℕ) (e : ℕ → ℕ) → j < n → n < 2 ^ 61 → link_entries n e j ≡ (j + 1) * 2
unfolding link_entries
link_entries-below zero j e h k = absurd (omega arith)
link_entries-below (suc n) j e h k = elim (ℕ_discrete n j) [
  | yes same ↦ ground arith
  | no other ↦ ground (arith, link_entries-below n j e (omega arith) (omega arith))
]

rising-IsLinked :
    (e : ℕ → ℕ) (last n x : ℕ)
    → x + n ≡ last
    → ((j : ℕ) → j < last → e j ≡ (j + 1) * 2)
    → e last ≡ no_next
    → IsLinked e last x (rising (x + 1) n)
unfolding rising
rising-IsLinked e last zero x h links end = let same : x ≡ last = omega arith in rw same (end, refl)
rising-IsLinked e last (suc n) x h links end =
    (links x (omega arith), rising-IsLinked e last n (x + 1) (omega arith) links end)

-- A new pool of at least one and fewer than 2 ^ 61 identifiers is well formed, and has all of them
-- free, 0 first.
pub create-IsPool :
    (storage : ℕ → ℕ) (cap : ℕ)
    → 0 < cap
    → cap < 2 ^ 61
    → IsPool (create storage cap) (rising 0 cap)
unfolding create rising
create-IsPool storage zero lo hi = absurd (omega arith)
create-IsPool storage (suc n) lo hi =
    let last : (suc n + 2 ^ 64 - 1) % 2 ^ 64 ≡ n = omega arith in
    rw last (record {
      small = hi;
      queue = (
        refl,
        rising-IsLinked (store (link_entries n storage) n no_next) n n 0 (omega arith)
            (λ j lt. ground (arith, link_entries-below n j storage lt (omega arith)))
            (ground arith),
      );
      distinct = rising-IsDistinct (suc n) 0;
      within = rising-within (suc n) 0 (suc n) (omega arith);
      taken = λ i lt a. absurd (rising-all (suc n) 0 i (omega arith) (omega arith) a);
    })
