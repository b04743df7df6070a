-- ===== src/Avl.antt =====
-- sysheaders/common/beel/utils/avl.tree.hpp
pub mod Node
pub mod Edit
pub mod Heights
pub mod Sequence
pub mod Contents
pub mod Insertion
pub mod Visit
pub mod Traversal
pub mod Levels
pub mod Order
pub mod Placement
pub mod Tree
pub mod Invariant
pub mod Inserting
pub mod Removing
pub mod Counting
pub mod Between
pub mod Conditional
mod Tests
