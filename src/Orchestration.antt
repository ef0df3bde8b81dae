-- ===== src/Orchestration.antt =====
-- The orchestration layer (orchestration/): the order in which a workflow runs.
pub mod Graph
