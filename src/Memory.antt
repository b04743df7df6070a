-- ===== src/Memory.antt =====
-- The address-space descriptors of beelzebub/inc/memory.
pub mod Regions
pub mod Ranges
pub mod Lookup
pub mod Pointers
pub mod Places
pub mod Vas
mod Tests
