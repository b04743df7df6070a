-- ===== src/Avl/Tree.antt =====
-- `AvlTree` of sysheaders/common/beel/utils/avl.tree.hpp: the public operations on a tree.
use beelzebub.Common.{ℕ, ◌+◌, ◌-◌, ◌^◌, Bool, Option, none, some, Ordering, if◌then◌else◌, u64}
use beelzebub.Handles.{HandleResult, is_okay, not_found}
use beelzebub.Avl.Node.{Cell, Node, null}
use beelzebub.Avl.Edit.{Allocator, Comparison}
use beelzebub.Avl.Edit
use beelzebub.Avl.Visit.{TreeTraversalOrder, Visitor}
use beelzebub.Avl.Visit

-- `cookie` is the state of the allocator that `Cookie` points to.
pub record AvlTree {ℓ κ} (P : Type ℓ) (S : Type κ) : Type (ℓ ⊔ κ) where
  pub root : Node (Cell P)
  pub node_count : ℕ  -- size_t
  pub cookie : S

-- A handle, the payload that the caller gets a pointer or a copy of, and the tree after the call.
pub record Outcome {ℓ κ} (P : Type ℓ) (S : Type κ) : Type (ℓ ⊔ κ) where
  pub result : HandleResult
  pub payload : Option (Cell P)
  pub tree : AvlTree P S

module _ {ℓ κ} {P : Type ℓ} {S : Type κ} (alloc : Allocator S) where
  unfoldable pub find : (P → Ordering) → AvlTree P S → Option (Cell P)
  find test tree = Edit.find test tree.root

  unfoldable pub insert : Comparison P P → P → AvlTree P S → Outcome P S
  insert compare p tree =
      let i = Edit.insert alloc compare p tree.root tree.cookie in
      record {
        result = i.result;
        payload = if is_okay i.result then i.created else none;
        tree = record {
          root = i.root;
          node_count = if is_okay i.result then u64 (tree.node_count + 1) else tree.node_count;
          cookie = i.state;
        };
      }

  -- The payload is `cover.Finding`. The count is left as it was.
  unfoldable pub insert_or_find {μ} :
      {C : Type μ} → Comparison P C → (C → P) → C → AvlTree P S → Outcome P S
  insert_or_find compare payload_of cover tree =
      let i = Edit.insert_or_find alloc compare payload_of cover tree.root tree.cookie in
      record {
        result = i.result;
        payload = i.finding;
        tree = record { root = i.root; node_count = tree.node_count; cookie = i.state };
      }

  unfoldable pub insert_blank {μ} :
      {K : Type μ} → Comparison P K → P → K → AvlTree P S → Outcome P S
  insert_blank compare garbage key tree =
      let i = Edit.insert_blank alloc compare garbage key tree.root tree.cookie in
      record {
        result = i.result;
        payload = i.created;
        tree = record {
          root = i.root;
          node_count = if is_okay i.result then u64 (tree.node_count + 1) else tree.node_count;
          cookie = i.state;
        };
      }

  -- What `Remove` and `RemoveIf` do with the node that came out of the tree.
  unfoldable pub give_back : AvlTree P S → Option (Cell P) × Node (Cell P) → Outcome P S
  give_back tree (none, root) = record {
    result = not_found;
    payload = none;
    tree = record tree { root = root };
  }
  give_back tree (some c, root) =
      let (res, cookie) = alloc.release c.address tree.cookie in
      record {
        result = res;
        payload = some c;
        tree = record {
          root = root;
          node_count = u64 (tree.node_count + 2 ^ 64 - 1);
          cookie = cookie;
        };
      }

  unfoldable pub remove : (P → Ordering) → AvlTree P S → Outcome P S
  unfolding give_back
  remove test tree = give_back tree (Edit.remove test tree.root)

  unfoldable pub remove_if : (P → Ordering) → (Cell P → Bool) → AvlTree P S → Outcome P S
  unfolding give_back
  remove_if test pred tree = give_back tree (Edit.remove_if test pred tree.root)

  -- Also on failure the tree is empty afterwards.
  unfoldable pub clear : AvlTree P S → Outcome P S
  clear tree =
      let (res, cookie) = Visit.clear alloc tree.root tree.cookie in
      record {
        result = res;
        payload = none;
        tree = record { root = null; node_count = 0; cookie = cookie };
      }

  unfoldable pub traverse {μ} :
      {T : Type μ} → ℕ → TreeTraversalOrder → Visitor (Cell P) T → AvlTree P S → T → Bool × T
  traverse fuel order lambda tree = Visit.traverse lambda fuel order tree.root
