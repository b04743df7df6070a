-- ===== src/Memory/Vas/Freeing.antt =====
-- `Vas::Free` of beelzebub/src/memory/vas.cpp on a well-formed space, in one region.
use beelzebub.Common.{ℕ, ◌+◌, ◌^◌, ◌≤◌, ◌<◌, ◌≡◌, ◌≢◌, ◌⊎◌, Bool, true, false}
use beelzebub.Avl.Edit.{Allocator}
use beelzebub.Memory.Vas.{Vas, OperationParameters, free_content, page_size}
use beelzebub.Memory.Vas.Calls.{free_operation}
use beelzebub.Memory.Vas.Chain.{AddressMap}
use beelzebub.Memory.Vas.Holding.{Laws}
use beelzebub.Memory.Vas.Space.{Implements}
use beelzebub.Memory.Vas.Updates.{updated}

module _ {κ} {S : Type κ} {alloc : Allocator S} (laws : Laws alloc) (g : AddressMap)
    (lo hi : ℕ) where
  -- A range that was in use, and is free now; a page at each end may have gone with it.
  pub record Freed (vaddr size : ℕ) (v : Vas S) : Type 0 where
    pub start : ℕ
    pub finish : ℕ
    pub from : (start ≡ vaddr) ⊎ (start + page_size ≡ vaddr)
    pub upto : (finish ≡ vaddr + size) ⊎ (finish ≡ vaddr + size + page_size)
    pub within : (lo ≤ start) × (finish ≤ hi)
    pub was_used : (a : ℕ) → start ≤ a → a < finish → (g a).0 ≢ free_content
    pub now : Implements laws (updated g start finish (free_content, 0)) lo hi v

  -- Nothing to free, which a tolerant call accepts.
  pub record Spared (vaddr size : ℕ) (v : Vas S) : Type 0 where
    pub was_free : (a : ℕ) → vaddr ≤ a → a < vaddr + size → (g a).0 ≡ free_content
    pub now : Implements laws g lo hi v

  module _ (v : Vas S) (small : hi < 2 ^ 64) (i : Implements laws g lo hi v) (fuel vaddr size : ℕ)
      (tolerant : Bool) (some_size : 0 < size) (fits : vaddr + size < 2 ^ 64) where
    abbrev op : OperationParameters
    op = free_operation vaddr size false tolerant

    abbrev Freeing : Vas S → Type 0
    Freeing z = Freed vaddr size z ⊎ ((tolerant ≡ true) × Spared vaddr size z)
