-- ===== src/Kernel.antt =====
-- src/hydramind/kernel: interactions, turns and messages, and who acts next.
pub mod Contracts
pub mod Scheduler
pub mod Runner
