-- ===== src/Queue.antt =====
-- The work queue (queue/): its wire type, and the adapter that lives in one process.
pub mod Contracts
pub mod InMemory
