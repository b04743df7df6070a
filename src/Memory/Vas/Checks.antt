-- ===== src/Memory/Vas/Checks.antt =====
-- What `Check` of the two operations in beelzebub/src/memory/vas.cpp says of a region and its neighbours.
use beelzebub.Common.{
  ℕ, ◌+◌, ◌-◌, ◌^◌, ◌≢◌, ◌≤◌, ◌<◌, ◌≡◌, refl, ◌⊎◌, true, false, ◌==◌, ==_iff, Option, none, some,
  u64, arith,
}
use beelzebub.Handles.{page_free}
use beelzebub.Memory.Regions.{MemoryRegion}
use beelzebub.Memory.Vas.{
  Manipulation, allocating, freeing, OperationParameters, DescriptorCheckResults, check,
  free_content, page_size, is_allocation, memory_contents_mergeable,
}
use beelzebub.Memory.Vas.Chain.{use_of, used_as}
use beelzebub.Memory.Vas.Updates.{purpose}

-- A neighbour that is used as the operation uses its addresses.
abbrev pub IsAlike : Manipulation → Option MemoryRegion → Type 0
IsAlike m o = (r : MemoryRegion) × (o ≡ some r) × (use_of r ≡ purpose m)

alike :
    (r : MemoryRegion) (content flags : ℕ)
    → r.content ≡ content
    → r.flags ≡ flags
    → use_of r ≡ used_as content flags
alike r content flags e f = rw (e, f) refl

same_content : (a b : ℕ) → memory_contents_mergeable a b ≡ true → a ≡ b
unfolding memory_contents_mergeable
same_content a b h = ground arith

freed : (r : MemoryRegion) → (r.content == free_content) ≡ true → use_of r ≡ (free_content, 0)
freed r h = let e = (==_iff r.content free_content).0 h in rw e refl

module _ (op : OperationParameters) (reg : MemoryRegion) where
  left :
      (m : Manipulation) (prev next : Option MemoryRegion)
      → (check (record op { manipulation = m }) reg prev next).left_mergeable ≡ true
      → IsAlike m prev
  unfolding check
  left (allocating flags content type) none next h = absurd (ground arith)
  left (allocating flags content type) (some p) next h = (
    p,
    refl,
    alike p content flags (same_content p.content content (ground arith)) (ground arith),
  )
  left freeing none next h = absurd (ground arith)
  left freeing (some p) next h = (p, refl, freed p (ground arith))

  right :
      (m : Manipulation) (prev next : Option MemoryRegion)
      → (check (record op { manipulation = m }) reg prev next).right_mergeable ≡ true
      → IsAlike m next
  unfolding check
  right (allocating flags content type) prev none h = absurd (ground arith)
  right (allocating flags content type) prev (some n) h = (
    n,
    refl,
    alike n content flags (same_content n.content content (ground arith)) (ground arith),
  )
  right freeing prev none h = absurd (ground arith)
  right freeing prev (some n) h = (n, refl, freed n (ground arith))

  pub check-left :
      (prev next : Option MemoryRegion)
      → (check op reg prev next).left_mergeable ≡ true
      → IsAlike op.manipulation prev
  check-left prev next h = left op.manipulation prev next h

  pub check-right :
      (prev next : Option MemoryRegion)
      → (check op reg prev next).right_mergeable ≡ true
      → IsAlike op.manipulation next
  check-right prev next h = right op.manipulation prev next h

-- What the results say of the bounds, where the operation does not pass the region unless it may.
pub record Bounds (op : OperationParameters) (reg : MemoryRegion) (d : DescriptorCheckResults)
    : Type 0 where
  pub inside_left : d.meets_left ≡ false → reg.range.start < op.address
  pub inside_right : d.meets_right ≡ false → u64 (op.address + op.size) < reg.range.end
  pub left_meets : d.left_mergeable ≡ true → d.meets_left ≡ true
  pub right_meets : d.right_mergeable ≡ true → d.meets_right ≡ true

-- An allocation takes what it asks for; what is freed may have pages around it that guard it.
bounds :
    (op : OperationParameters) (reg : MemoryRegion) (m : Manipulation)
    (prev next : Option MemoryRegion)
    → reg.range.start ≤ op.address
    → op.address < reg.range.end
    → (is_allocation m ≡ true → u64 (op.address + op.size) ≤ reg.range.end)
    → Bounds op reg (check (record op { manipulation = m }) reg prev next)
unfolding check
bounds op reg (allocating flags content type) prev next l h fits =
    let fits' = fits refl in
    record {
      inside_left = λ e. ground arith;
      inside_right = λ e. ground arith;
      left_meets = λ e. ground arith;
      right_meets = λ e. ground arith;
    }
bounds op reg freeing prev next l h fits = record {
  inside_left = λ e. ground arith;
  inside_right = λ e. ground arith;
  left_meets = λ e. ground arith;
  right_meets = λ e. ground arith;
}

pub check-Bounds :
    (op : OperationParameters) (reg : MemoryRegion) (prev next : Option MemoryRegion)
    → reg.range.start ≤ op.address
    → op.address < reg.range.end
    → (is_allocation op.manipulation ≡ true → u64 (op.address + op.size) ≤ reg.range.end)
    → Bounds op reg (check op reg prev next)
check-Bounds op reg prev next l h fits = bounds op reg op.manipulation prev next l h fits

pub check-failure :
    (op : OperationParameters) (reg : MemoryRegion) (prev next : Option MemoryRegion)
    → (check op reg prev next).failure_result ≡ page_free
check-failure op reg prev next = failure op.manipulation
  where
    failure :
        (m : Manipulation)
        → (check (record op { manipulation = m }) reg prev next).failure_result ≡ page_free
    failure m = unfold check in ground arith

-- An allocation is accepted where the region is free, and meets exactly its ends.
pub record Exact (op : OperationParameters) (reg : MemoryRegion) (d : DescriptorCheckResults)
    : Type 0 where
  pub free : d.accepted ≡ true → use_of reg ≡ (free_content, 0)
  pub left : d.meets_left ≡ true → reg.range.start ≡ op.address
  pub right : d.meets_right ≡ true → reg.range.end ≡ u64 (op.address + op.size)

pub check-Exact :
    (op : OperationParameters) (flags content type : ℕ) (reg : MemoryRegion)
    (prev next : Option MemoryRegion)
    → op.manipulation ≡ allocating flags content type
    → Exact op reg (check op reg prev next)
unfolding check
check-Exact op flags content type reg prev next e =
    rw (e, check)
      (record { free = λ h. freed reg h; left = λ h. ground arith; right = λ h. ground arith })

-- What is freed is not free, and what is taken beyond the request is a page at each end.
pub record Guarded (op : OperationParameters) (reg : MemoryRegion) (d : DescriptorCheckResults)
    : Type 0 where
  pub used : d.accepted ≡ true → reg.content ≢ free_content
  pub kept : d.accepted ≡ false → reg.content ≡ free_content
  pub left :
      d.meets_left ≡ true
      → (reg.range.start ≡ op.address) ⊎ (reg.range.start ≡ u64 (op.address + 2 ^ 64 - page_size))
  pub right :
      d.meets_right ≡ true
      → (reg.range.end ≤ u64 (op.address + op.size))
        ⊎ (reg.range.end ≡ u64 (u64 (op.address + op.size) + page_size))

pub check-Guarded :
    (op : OperationParameters) (reg : MemoryRegion) (prev next : Option MemoryRegion)
    → op.manipulation ≡ freeing
    → Guarded op reg (check op reg prev next)
unfolding check
check-Guarded op reg prev next e =
    rw (e, check)
      (record {
        used = λ h. ground arith;
        kept = λ h. ground arith;
        left = λ h. ground arith;
        right = λ h. ground arith;
      })
