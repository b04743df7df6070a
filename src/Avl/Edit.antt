-- ===== src/Avl/Edit.antt =====
-- The recursive searches, insertions and removals of `AvlTree` in
-- sysheaders/common/beel/utils/avl.tree.hpp.
use beelzebub.Common.{ℕ, Bool, Option, none, some, Ordering, if◌then◌else◌}
use beelzebub.Handles.{HandleResult, is_okay, cardinality_violation}
use beelzebub.Avl.Node.{Cell, Node, null, node, balance}

-- What a specialisation of `AllocateNode` returns: its handle, the node's address, and the state
-- behind `cookie` after it.
pub record Allocation {ℓ} (S : Type ℓ) : Type ℓ where
  pub result : HandleResult
  pub address : ℕ
  pub state : S

-- `AllocateNode` and `RemoveNode`, which each client of the tree specialises.
pub record Allocator {ℓ} (S : Type ℓ) : Type ℓ where
  pub allocate : S → Allocation S
  pub release : ℕ → S → HandleResult × S

-- The sign of `Compare(node->Payload, key)`: `gt` sends the search left.
abbrev pub Comparison {ℓ κ} : Type ℓ → Type κ → Type (ℓ ⊔ κ)
Comparison P K = P → K → Ordering

-- What an insertion returns, and the tree and the cookie's state after it.
pub record Insertion {ℓ κ} (P : Type ℓ) (S : Type κ) : Type (ℓ ⊔ κ) where
  pub result : HandleResult
  pub root : Node (Cell P)
  pub state : S
  pub created : Option (Cell P)  -- `newNode`, or the node that `payload` points into
  pub finding : Option (Cell P)  -- `cover.Finding`

-- `if likely(res.IsOkayResult()) { ... node->Balance() ... }` on the way up.
unfoldable pub settle {ℓ} : {A : Type ℓ} → HandleResult → Node A → Node A
settle r t = if is_okay r then balance t else t

module _ {ℓ κ} {P : Type ℓ} {S : Type κ} (alloc : Allocator S) where
  -- `Create(node, payload, cookie)` at a null `node`, which stays null if there is no memory.
  unfoldable pub create : P → S → Insertion P S
  create p s =
      let a = alloc.allocate s in
      let c : Cell P = record { address = a.address; payload = p } in
      if is_okay a.result
      then record {
        result = a.result;
        root = node null 1 c null;
        state = a.state;
        created = some c;
        finding = none;
      }
      else record {
        result = a.result;
        root = null;
        state = a.state;
        created = none;
        finding = none;
      }

  -- The body that `InsertOrFind`, `Insert` and `InsertBlank` share: `test` compares a node's
  -- payload to what is sought, and `p` is what a new node holds.
  unfoldable pub descend : (P → Ordering) → P → Node (Cell P) → S → Insertion P S
  unfolding create settle
  descend test p null s = create p s
  descend test p (node l h c r) s = elim (test c.payload) [
    | Ordering.eq ↦ record {
      result = cardinality_violation;
      root = node l h c r;
      state = s;
      created = none;
      finding = some c;
    }
    | Ordering.gt ↦
        let i = descend test p l s in record i { root = settle i.result (node i.root h c r) }
    | Ordering.lt ↦
        let i = descend test p r s in record i { root = settle i.result (node l h c i.root) }
  ]

  unfoldable pub insert : Comparison P P → P → Node (Cell P) → S → Insertion P S
  unfolding descend
  insert compare p = descend (λ q. compare q p) p

  -- `cover` is compared, and its `Payload` inserted.
  unfoldable pub insert_or_find {μ} :
      {C : Type μ} → Comparison P C → (C → P) → C → Node (Cell P) → S → Insertion P S
  unfolding descend
  insert_or_find compare payload_of cover = descend (λ q. compare q cover) (payload_of cover)

  -- The payload of the new node is left as the allocator gave it: `garbage`.
  unfoldable pub insert_blank {μ} :
      {K : Type μ} → Comparison P K → P → K → Node (Cell P) → S → Insertion P S
  unfolding descend
  insert_blank compare garbage key = descend (λ q. compare q key) garbage

module _ {ℓ} {A : Type ℓ} where
  -- What `RemoveMinimum` returns, and what is left at `node`.
  unfoldable pub remove_minimum : Node A → Option A × Node A
  remove_minimum null = (none, null)
  remove_minimum (node null h a r) = (some a, r)
  remove_minimum (node (node l k b m) h a r) =
      let (least, rest) = remove_minimum (node l k b m) in (least, balance (node rest h a r))

  -- The node found is taken out: a lone child replaces it, or its successor does.
  unfoldable pub replace : Node A → ℕ → Option A × Node A → Node A
  replace l h (some least, rest) = balance (node l h least rest)
  replace l h (none, rest) = balance l

  unfoldable pub unlink : Node A → ℕ → Node A → Node A
  unfolding replace
  unlink null h null = null
  unlink null h (node m k b r) = balance (node m k b r)
  unlink (node l k b m) h null = balance (node l k b m)
  unlink (node l k b m) h (node m' k' b' r) =
      replace (node l k b m) h (remove_minimum (node m' k' b' r))

module _ {ℓ} {P : Type ℓ} where
  unfoldable pub find : (P → Ordering) → Node (Cell P) → Option (Cell P)
  find test null = none
  find test (node l h c r) = elim (test c.payload) [
    | Ordering.eq ↦ some c
    | Ordering.gt ↦ find test l
    | Ordering.lt ↦ find test r
  ]

  -- `if likely(res != nullptr) { ... node->Balance() ... }` on the way up.
  unfoldable pub settle_removal : Option (Cell P) → Node (Cell P) → Node (Cell P)
  settle_removal none t = t
  settle_removal (some c) t = balance t

  unfoldable pub remove : (P → Ordering) → Node (Cell P) → Option (Cell P) × Node (Cell P)
  unfolding unlink settle_removal
  remove test null = (none, null)
  remove test (node l h c r) = elim (test c.payload) [
    | Ordering.eq ↦ (some c, unlink l h r)
    | Ordering.gt ↦ let (res, l') = remove test l in (res, settle_removal res (node l' h c r))
    | Ordering.lt ↦ let (res, r') = remove test r in (res, settle_removal res (node l h c r'))
  ]

  -- `res` is whether `find` was set and its node removed.
  unfoldable pub remove_if :
      (P → Ordering) → (Cell P → Bool) → Node (Cell P) → Option (Cell P) × Node (Cell P)
  unfolding unlink settle_removal
  remove_if test pred null = (none, null)
  remove_if test pred (node l h c r) = elim (test c.payload) [
    | Ordering.eq ↦ if pred c then (some c, unlink l h r) else (none, node l h c r)
    | Ordering.gt ↦
        let (res, l') = remove_if test pred l in (res, settle_removal res (node l' h c r))
    | Ordering.lt ↦
        let (res, r') = remove_if test pred r in (res, settle_removal res (node l h c r'))
  ]
