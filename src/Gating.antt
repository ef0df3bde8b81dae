-- ===== src/Gating.antt =====
-- The gating layer (gating/): evaluators, and their registry.
pub mod Registry
