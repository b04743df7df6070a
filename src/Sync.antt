-- ===== src/Sync.antt =====
-- The locks of sysheaders/common/beel/sync, under any number of threads.
pub mod Threads
pub mod Rw
pub mod Ticket
