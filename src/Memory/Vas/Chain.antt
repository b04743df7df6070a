-- ===== src/Memory/Vas/Chain.antt =====
-- The regions of a `Vas` of beelzebub/src/memory/vas.cpp as a chain: they follow each other without a gap,
-- are linked both ways, and show what a map from addresses says.
use beelzebub.Common.{
  ℕ, ◌≤◌, ◌<◌, ◌≡◌, refl, sym, ap, ◌∙◌, List, [], ◌∷◌, ◌++◌, ◌==◌, if◌then◌else◌, All, arith,
}
use beelzebub.Avl.Node.{Cell}
use beelzebub.Memory.Regions.{MemoryRegion}
use beelzebub.Memory.Places.{put}
use beelzebub.Memory.Vas.{free_content}
use beelzebub.Memory.Vas.Writes.{set_next, set_prev}

-- What is at the addresses of a region: its content, and its flags unless it is free.
abbrev pub Use : Type 0
Use = ℕ × ℕ

abbrev pub used_as : (content flags : ℕ) → Use
used_as content flags = (content, if content == free_content then 0 else flags)

abbrev pub use_of : MemoryRegion → Use
use_of r = used_as r.content r.flags

abbrev pub AddressMap : Type 0
AddressMap = ℕ → Use

-- The first region's address, or what follows where there is none.
abbrev pub first_of : List (Cell MemoryRegion) → ℕ → ℕ
first_of [] n = n
first_of (c ∷ cs) n = c.address

-- A region behind the one at `p`, from `lo` on, before the one at `n`.
pub record Linked (g : AddressMap) (p lo n : ℕ) (r : MemoryRegion) : Type 0 where
  pub prev : r.prev ≡ p
  pub start : r.range.start ≡ lo
  pub proper : lo < r.range.end
  pub next : r.next ≡ n
  pub shows : (a : ℕ) → lo ≤ a → a < r.range.end → use_of r ≡ g a

-- From behind `p` and from the address `lo` to the last region `q` and the address `hi`, before `n`.
abbrev pub Chain : AddressMap → ℕ → ℕ → List (Cell MemoryRegion) → ℕ → ℕ → ℕ → Type 0
Chain g p lo [] q hi n = (p ≡ q) × (lo ≡ hi)
Chain g p lo (c ∷ cs) q hi n =
    Linked g p lo (first_of cs n) c.payload × Chain g c.address c.payload.range.end cs q hi n

pub first_of-append :
    (xs ys : List (Cell MemoryRegion)) (n : ℕ) → first_of (xs ++ ys) n ≡ first_of xs (first_of ys n)
first_of-append [] ys n = refl
first_of-append (x ∷ xs) ys n = refl

-- What lies between two parts of a chain.
pub record Split (g : AddressMap) (p lo : ℕ) (xs ys : List (Cell MemoryRegion)) (q hi n : ℕ)
    : Type 0 where
  pub last : ℕ
  pub border : ℕ
  pub front : Chain g p lo xs last border (first_of ys n)
  pub back : Chain g last border ys q hi n

pub chain-Split :
    (g : AddressMap) (p lo : ℕ) (xs ys : List (Cell MemoryRegion)) (q hi n : ℕ)
    → Chain g p lo (xs ++ ys) q hi n
    → Split g p lo xs ys q hi n
chain-Split g p lo [] ys q hi n h = record { last = p; border = lo; front = (refl, refl); back = h }
chain-Split g p lo (x ∷ xs) ys q hi n h =
    let s = chain-Split g x.address x.payload.range.end xs ys q hi n h.1 in
    record {
      last = s.last;
      border = s.border;
      front = (rw (sym (first_of-append xs ys n)) h.0, s.front);
      back = s.back;
    }

pub chain_join :
    (g : AddressMap) (p lo : ℕ) (xs ys : List (Cell MemoryRegion)) (m mid q hi n : ℕ)
    → Chain g p lo xs m mid (first_of ys n)
    → Chain g m mid ys q hi n
    → Chain g p lo (xs ++ ys) q hi n
chain_join g p lo [] ys m mid q hi n (e, f) k = rw (e, f) k
chain_join g p lo (x ∷ xs) ys m mid q hi n h k = (
  rw (first_of-append xs ys n) h.0,
  chain_join g x.address x.payload.range.end xs ys m mid q hi n h.1 k,
)

pub chain_le :
    (g : AddressMap) (p lo : ℕ) (xs : List (Cell MemoryRegion)) (q hi n : ℕ)
    → Chain g p lo xs q hi n
    → lo ≤ hi
chain_le g p lo [] q hi n h = let e = h.1 in omega arith
chain_le g p lo (x ∷ xs) q hi n h =
    let proper = h.0.proper in let rest = chain_le _ _ _ xs _ _ _ h.1 in omega arith

-- Another map that agrees between the ends.
pub chain_agree :
    (g g' : AddressMap) (p lo : ℕ) (xs : List (Cell MemoryRegion)) (q hi n : ℕ)
    → Chain g p lo xs q hi n
    → ((a : ℕ) → lo ≤ a → a < hi → g a ≡ g' a)
    → Chain g' p lo xs q hi n
chain_agree g g' p lo [] q hi n h e = h
chain_agree g g' p lo (x ∷ xs) q hi n h e =
    let k = h.0 in
    let proper = k.proper in
    let rest = chain_le _ _ _ xs _ _ _ h.1 in
    (
      record {
        prev = k.prev;
        start = k.start;
        proper = k.proper;
        next = k.next;
        shows = λ a l u. k.shows a l u ∙ e a l (omega arith);
      },
      chain_agree g g' _ _ xs q hi n h.1 (λ a l u. e a (omega arith) u),
    )

-- `Prev` of the first one, and `Next` of the last one, written.
abbrev pub relink_prev : ℕ → List (Cell MemoryRegion) → List (Cell MemoryRegion)
relink_prev p [] = []
relink_prev p (c ∷ cs) = put (set_prev p) c ∷ cs

abbrev pub relink_next : ℕ → List (Cell MemoryRegion) → List (Cell MemoryRegion)
relink_next n [] = []
relink_next n (c ∷ []) = put (set_next n) c ∷ []
relink_next n (c ∷ d ∷ ds) = c ∷ relink_next n (d ∷ ds)

pub chain-relink_prev :
    (g : AddressMap) (p lo : ℕ) (p' : ℕ) (ys : List (Cell MemoryRegion)) (q hi n : ℕ)
    → Chain g p lo ys q hi n
    → (q' : ℕ) × Chain g p' lo (relink_prev p' ys) q' hi n
chain-relink_prev g p lo p' [] q hi n h = (p', (refl, h.1))
chain-relink_prev g p lo p' (y ∷ ys) q hi n h =
    let k = h.0 in
    (
      q,
      (
        record { prev = refl; start = k.start; proper = k.proper; next = k.next; shows = k.shows },
        h.1,
      ),
    )

pub first_of-relink_prev :
    (p : ℕ) (ys : List (Cell MemoryRegion)) (n : ℕ) → first_of (relink_prev p ys) n ≡ first_of ys n
first_of-relink_prev p [] n = refl
first_of-relink_prev p (y ∷ ys) n = refl

first_of-relink_next :
    (n' : ℕ) (xs : List (Cell MemoryRegion)) (n : ℕ)
    → first_of (relink_next n' xs) n ≡ first_of xs n
first_of-relink_next n' [] n = refl
first_of-relink_next n' (x ∷ []) n = refl
first_of-relink_next n' (x ∷ y ∷ ys) n = refl

pub chain-relink_next :
    (g : AddressMap) (p lo : ℕ) (n' : ℕ) (xs : List (Cell MemoryRegion)) (q hi n : ℕ)
    → Chain g p lo xs q hi n
    → Chain g p lo (relink_next n' xs) q hi n'
chain-relink_next g p lo n' [] q hi n h = h
chain-relink_next g p lo n' (x ∷ []) q hi n h =
    let k = h.0 in
    (
      record { prev = k.prev; start = k.start; proper = k.proper; next = refl; shows = k.shows },
      h.1,
    )
chain-relink_next g p lo n' (x ∷ y ∷ ys) q hi n h = (
  let k = h.0 in rw (first_of-relink_next n' (y ∷ ys) n') k,
  chain-relink_next g _ _ n' (y ∷ ys) q hi n h.1,
)

-- The regions lie between the ends of their chain.
abbrev pub IsWithin : ℕ → ℕ → Cell MemoryRegion → Type 0
IsWithin lo hi c =
    (lo ≤ c.payload.range.start)
    × (c.payload.range.start < c.payload.range.end)
    × (c.payload.range.end ≤ hi)

pub chain-IsWithin :
    (g : AddressMap) (p lo : ℕ) (xs : List (Cell MemoryRegion)) (q hi n : ℕ) (floor : ℕ)
    → floor ≤ lo
    → Chain g p lo xs q hi n
    → All (IsWithin floor hi) xs
chain-IsWithin g p lo [] q hi n floor f h = tt
chain-IsWithin g p lo (x ∷ xs) q hi n floor f h =
    let start = h.0.start in
    let proper = h.0.proper in
    let rest = chain_le _ _ _ xs _ _ _ h.1 in
    (
      (omega arith, omega arith, omega arith),
      chain-IsWithin g _ _ xs q hi n floor (omega arith) h.1,
    )

-- The last region before the border, where there is one.
pub record Last (g : AddressMap) (p lo : ℕ) (xs : List (Cell MemoryRegion)) (q hi n : ℕ)
    : Type 0 where
  pub front : List (Cell MemoryRegion)
  pub cell : Cell MemoryRegion
  pub whole : xs ≡ front ++ cell ∷ []
  pub address : cell.address ≡ q

pub chain-Last :
    (g : AddressMap) (p lo : ℕ) (x : Cell MemoryRegion) (xs : List (Cell MemoryRegion)) (q hi n : ℕ)
    → Chain g p lo (x ∷ xs) q hi n
    → Last g p lo (x ∷ xs) q hi n
chain-Last g p lo x [] q hi n h = record { front = []; cell = x; whole = refl; address = h.1.0 }
chain-Last g p lo x (y ∷ ys) q hi n h =
    let l = chain-Last g _ _ y ys q hi n h.1 in
    record { front = x ∷ l.front; cell = l.cell; whole = ap (◌∷◌ x) l.whole; address = l.address }
