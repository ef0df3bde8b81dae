-- ===== src/Control/History.antt =====
-- Histories of calls of `SessionService`.
pub mod Frames
pub mod Turns
pub mod Changes
pub mod Calls
pub mod Safe
pub mod SafeNodes
pub mod SafeTurns
pub mod SafeRecords
pub mod SafeApply
pub mod Recorded
pub mod Decisions
pub mod Permanent
pub mod Once
pub mod Events
