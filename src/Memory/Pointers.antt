-- ===== src/Memory/Pointers.antt =====
-- Regions by the addresses of their nodes, as `MemoryRegion *` of beelzebub/src/memory/vas.cpp reads and
-- writes them in the nodes of the tree.
use beelzebub.Common.{
  ℕ, ◌≡◌, refl, List, [], ◌∷◌, map, map-append, Option, none, some, ◌==◌, if◌then◌else◌,
}
use beelzebub.Avl.Node.{Cell, Node, null, node, to_list, get_height}
use beelzebub.Avl.Heights.{IsBalanced}
use beelzebub.Avl.Tree.{AvlTree}
use beelzebub.Memory.Regions.{MemoryRegion}

-- The region at an address, of those in a list of nodes.
unfoldable pub lookup : ℕ → List (Cell MemoryRegion) → Option MemoryRegion
lookup a [] = none
lookup a (c ∷ cs) = if c.address == a then some c.payload else lookup a cs

abbrev pub at : ℕ → (MemoryRegion → MemoryRegion) → Cell MemoryRegion → Cell MemoryRegion
at a f c = if c.address == a then record c { payload = f c.payload } else c

unfoldable pub map_nodes :
    (Cell MemoryRegion → Cell MemoryRegion) → Node (Cell MemoryRegion) → Node (Cell MemoryRegion)
map_nodes f null = null
map_nodes f (node l h c r) = node (map_nodes f l) h (f c) (map_nodes f r)

-- `*reg`.
unfoldable pub load {κ} : {S : Type κ} → ℕ → AvlTree MemoryRegion S → Option MemoryRegion
unfolding lookup
load a tree = lookup a (to_list tree.root)

-- A write to fields of `*reg`.
unfoldable pub modify {κ} :
    {S : Type κ}
    → ℕ
    → (MemoryRegion → MemoryRegion)
    → AvlTree MemoryRegion S
    → AvlTree MemoryRegion S
unfolding map_nodes
modify a f tree = record tree { root = map_nodes (at a f) tree.root }

pub height-map_nodes :
    (f : Cell MemoryRegion → Cell MemoryRegion) (t : Node (Cell MemoryRegion))
    → get_height (map_nodes f t) ≡ get_height t
unfolding map_nodes get_height
height-map_nodes f null = refl
height-map_nodes f (node l h c r) = refl

pub map_nodes-IsBalanced :
    (f : Cell MemoryRegion → Cell MemoryRegion) (t : Node (Cell MemoryRegion))
    → IsBalanced t
    → IsBalanced (map_nodes f t)
unfolding map_nodes
map_nodes-IsBalanced f null b = tt
map_nodes-IsBalanced f (node l h c r) b =
    rw (height-map_nodes f l, height-map_nodes f r)
      (b.0, b.1, b.2, map_nodes-IsBalanced f l b.3, map_nodes-IsBalanced f r b.4)

pub to_list-map_nodes :
    (f : Cell MemoryRegion → Cell MemoryRegion) (t : Node (Cell MemoryRegion))
    → to_list (map_nodes f t) ≡ map f (to_list t)
unfolding map_nodes to_list
to_list-map_nodes f null = refl
to_list-map_nodes f (node l h c r) = simp (to_list-map_nodes f l, to_list-map_nodes f r, map-append)
