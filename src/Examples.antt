-- ===== src/Examples.antt =====
-- Runs of the model on small data.
pub mod Data
pub mod Stores
pub mod Events
pub mod Leases
pub mod Interactions
pub mod Teams
pub mod Gates
pub mod Queues
pub mod Graphs
pub mod Reports
pub mod Evaluators
pub mod Decisions
