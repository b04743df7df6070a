-- ===== src/Memory/Vas/Updates.antt =====
-- What an operation of beelzebub/src/memory/vas.cpp does to the map from addresses to their use.
use beelzebub.Common.{
  ℕ, ◌≤◌, ◌<◌, ◌≡◌, refl, sym, ◌∙◌, List, true, false, ◌&&◌, leb, ltb, dec_lt, if◌then◌else◌, arith,
}
use beelzebub.Avl.Node.{Cell}
use beelzebub.Memory.Regions.{MemoryRegion}
use beelzebub.Memory.Vas.{Manipulation, allocating, freeing, free_content, repurpose}
use beelzebub.Memory.Vas.Chain.{Use, used_as, use_of, AddressMap, Linked, Chain, chain_agree}

-- What an operation puts at its addresses.
abbrev pub purpose : Manipulation → Use
purpose (allocating flags content type) = used_as content flags
purpose freeing = used_as free_content 0

pub use_of-repurpose : (m : Manipulation) (r : MemoryRegion) → use_of (repurpose m r) ≡ purpose m
unfolding repurpose
use_of-repurpose (allocating flags content type) r = refl
use_of-repurpose freeing r = refl

-- The map with `u` from `s` up to `e`.
abbrev pub updated : AddressMap → ℕ → ℕ → Use → AddressMap
updated g s e u a = if leb s a && ltb a e then u else g a

module _ (g : AddressMap) (s e : ℕ) (u : Use) where
  pub updated_inside : (a : ℕ) → s ≤ a → a < e → u ≡ updated g s e u a
  updated_inside a l h = let b : (leb s a && ltb a e) ≡ true = ground arith in rw b refl

  pub updated_before : (a : ℕ) → a < s → g a ≡ updated g s e u a
  updated_before a l = let b : (leb s a && ltb a e) ≡ false = ground arith in rw b refl

  pub updated_behind : (a : ℕ) → e ≤ a → g a ≡ updated g s e u a
  updated_behind a l = let b : (leb s a && ltb a e) ≡ false = ground arith in rw b refl

  -- Regions before and behind the update show what they did.
  pub front_updated :
      (p lo : ℕ) (xs : List (Cell MemoryRegion)) (q hi n : ℕ)
      → hi ≤ s
      → Chain g p lo xs q hi n
      → Chain (updated g s e u) p lo xs q hi n
  front_updated p lo xs q hi n l h =
      chain_agree g _ p lo xs q hi n h (λ a _ o. updated_before a (omega arith))

  pub back_updated :
      (p lo : ℕ) (xs : List (Cell MemoryRegion)) (q hi n : ℕ)
      → e ≤ lo
      → Chain g p lo xs q hi n
      → Chain (updated g s e u) p lo xs q hi n
  back_updated p lo xs q hi n l h =
      chain_agree g _ p lo xs q hi n h (λ a o _. updated_behind a (omega arith))

  -- What a region has become that shows `u` where the update is and what it did elsewhere.
  pub extended_shows :
      (w : Use) (a : ℕ)
      → (s ≤ a → a < e → w ≡ u)
      → (a < s → w ≡ g a)
      → (e ≤ a → w ≡ g a)
      → w ≡ updated g s e u a
  extended_shows w a i b f = elim (dec_lt a s) [
    | yes l ↦ b l ∙ updated_before a l
    | no l ↦ elim (dec_lt a e) [
      | yes o ↦ i (omega arith) o ∙ updated_inside a (omega arith) o
      | no o ↦ f (omega arith) ∙ updated_behind a (omega arith)
    ]
  ]

-- An update may go further where the map is the same.
pub updated_further :
    (g : AddressMap) (s e e' : ℕ) (u : Use)
    → e ≤ e'
    → ((a : ℕ) → e ≤ a → a < e' → u ≡ g a)
    → (a : ℕ) → updated g s e' u a ≡ updated g s e u a
updated_further g s e e' u l f a = elim (dec_lt a e) [
  | yes o ↦ elim (dec_lt a s) [
    | yes b ↦ sym (updated_before g s e' u a b) ∙ updated_before g s e u a b
    | no b ↦
        sym (updated_inside g s e' u a (omega arith) (omega arith))
        ∙ updated_inside g s e u a (omega arith) o
  ]
  | no o ↦ elim (dec_lt a e') [
    | yes b ↦ elim (dec_lt a s) [
      | yes d ↦ sym (updated_before g s e' u a d) ∙ updated_before g s e u a d
      | no d ↦
          sym (updated_inside g s e' u a (omega arith) b)
          ∙ f a (omega arith) b
          ∙ updated_behind g s e u a (omega arith)
    ]
    | no b ↦ sym (updated_behind g s e' u a (omega arith)) ∙ updated_behind g s e u a (omega arith)
  ]
]

-- A region that an operation has been repurposed for it.
pub repurpose-Linked :
    (m : Manipulation) {g : AddressMap} (g' : AddressMap) {p lo n : ℕ} (r : MemoryRegion)
    → Linked g p lo n r
    → ((a : ℕ) → lo ≤ a → a < r.range.end → purpose m ≡ g' a)
    → Linked g' p lo n (repurpose m r)
unfolding repurpose
repurpose-Linked (allocating flags content type) g' r k f = record {
  prev = k.prev;
  start = k.start;
  proper = k.proper;
  next = k.next;
  shows = f;
}
repurpose-Linked freeing g' r k f = record {
  prev = k.prev;
  start = k.start;
  proper = k.proper;
  next = k.next;
  shows = f;
}

pub repurpose-range : (m : Manipulation) (r : MemoryRegion) → (repurpose m r).range ≡ r.range
unfolding repurpose
repurpose-range (allocating flags content type) r = refl
repurpose-range freeing r = refl
