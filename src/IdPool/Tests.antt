-- ===== src/IdPool/Tests.antt =====
-- Runs of a pool of id.pool.hpp of four identifiers, and the theorems at these inputs.
use beelzebub.Common.{ℕ, ◌≡◌, refl, [], ◌∷◌, true, arith}
use beelzebub.IdPool.{
  IdPool, not_free, create, acquire, set_pointer, unset_pointer, resolve, release,
}
use beelzebub.IdPool.Free.{IsPool}
use beelzebub.IdPool.Creation.{rising, create-IsPool}
use beelzebub.IdPool.Acquiring.{Acquires, acquire-Acquires}
use beelzebub.IdPool.Releasing.{Releases, release-Releases}
use beelzebub.IdPool.Pointers.{unset_pointer_leaves}

abbrev storage : ℕ → ℕ
storage _ = 0

four : IdPool
four = create storage 4

four-IsPool : IsPool four (0 ∷ 1 ∷ 2 ∷ 3 ∷ [])
unfolding four rising
four-IsPool = create-IsPool storage 4 (omega arith) (omega arith)

create-IsPool_example : IsPool (create storage 4) (rising 0 4)
create-IsPool_example = create-IsPool storage 4 (omega arith) (omega arith)

acquire-Acquires_example : Acquires four (0 ∷ 1 ∷ 2 ∷ 3 ∷ []) (acquire four)
acquire-Acquires_example = acquire-Acquires four (0 ∷ 1 ∷ 2 ∷ 3 ∷ []) four-IsPool

-- Identifier 0 is held, and the other three are free.
one_held : IdPool
unfolding four
one_held = (acquire four).1

one_held-IsPool : IsPool one_held (1 ∷ 2 ∷ 3 ∷ [])
unfolding one_held
one_held-IsPool = (acquire-Acquires four (0 ∷ 1 ∷ 2 ∷ 3 ∷ []) four-IsPool).1

release-Releases_example : Releases one_held (1 ∷ 2 ∷ 3 ∷ []) 0 (release 0 one_held)
release-Releases_example = release-Releases one_held (1 ∷ 2 ∷ 3 ∷ []) 0 one_held-IsPool

release_held : (release 0 one_held).0 ≡ true
unfolding one_held release create acquire
release_held = refl

-- Identifier 0 points at 0x1000.
pointed : IdPool
unfolding one_held
pointed = (set_pointer 0 0x1000 one_held).1

unset_pointed : (unset_pointer 0 7 pointed).0 ≡ true
unfolding pointed create acquire set_pointer unset_pointer
unset_pointed = refl

unset_pointer_leaves_example :
    ((unset_pointer 0 7 pointed).1 ≡ 7)
    × (resolve 0 (unset_pointer 0 7 pointed).2 ≡ not_free)
    × ((unset_pointer 0 8 (unset_pointer 0 7 pointed).2).0 ≡ true)
unset_pointer_leaves_example = unset_pointer_leaves pointed 0 7 8 unset_pointed
