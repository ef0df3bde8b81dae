-- ===== src/Mas.antt =====
-- src/hydramind/mas: the collaboration contracts, what of them is executed, and typed outcomes.
pub mod Contracts
pub mod Capability
pub mod Votes
