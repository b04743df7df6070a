-- ===== src/Memory/Vas/Starting.antt =====
-- `Vas::Initialize` of beelzebub/src/memory/vas.cpp.
use beelzebub.Common.{ℕ, ◌<◌, ◌≡◌, refl, [], ◌∷◌, true}
use beelzebub.Handles.{is_okay}
use beelzebub.Avl.Node.{null, to_list}
use beelzebub.Avl.Edit.{Allocator}
use beelzebub.Memory.Vas.{Vas, freeing, spawned, free_content, repurpose}
use beelzebub.Memory.Vas.Calls.{initialize}
use beelzebub.Memory.Vas.Chain.{AddressMap}
use beelzebub.Memory.Vas.Holding.{Laws, Holding, new, insert-payload, insert_held}
use beelzebub.Memory.Vas.Space.{Implements}

abbrev pub all_free : AddressMap
all_free a = (free_content, 0)

module _ {κ} {S : Type κ} {alloc : Allocator S} (laws : Laws alloc) (start end : ℕ) (s : S) where
  abbrev empty : Vas S
  empty = record {
    tree = record { root = null; node_count = 0; cookie = s };
    first = 0;
    last_searched = 0;
  }

  empty_held : Holding laws empty []
  unfolding to_list
  empty_held = record { held = refl; distinct = tt; alive = tt; balanced = tt }

  -- An `Initialize` for a range that is not empty, where it returns `Okay`, gives a well-formed space of
  -- that range, all of it free. The allocator of nodes keeps its laws.
  pub initialize-Implements :
      start < end
      → is_okay (initialize alloc start end s).0 ≡ true
      → Implements laws all_free start end (initialize alloc start end s).1
  unfolding initialize
  initialize-Implements proper okay =
      let reg = spawned freeing start end in
      let held = insert_held laws empty reg [] [] empty_held tt tt okay in
      let payload = insert-payload laws empty reg [] [] empty_held tt tt okay in
      let c = new laws empty reg [] [] empty_held tt tt okay in
      rw payload record {
        cells = c ∷ [];
        last = c.address;
        holding = record {
          held = held.held;
          distinct = held.distinct;
          alive = held.alive;
          balanced = held.balanced;
        };
        first = refl;
        chain =
            unfold spawned repurpose in
            (
              record {
                prev = refl;
                start = refl;
                proper = proper;
                next = refl;
                shows = λ a l u. refl;
              },
              (refl, refl),
            );
      }
