-- ===== src/Control.antt =====
-- src/hydramind/control: the durable session, its operations and their service.
pub mod States
pub mod Interactions
pub mod Models
pub mod Execution
pub mod NodeLifecycle
pub mod ToolRecords
pub mod InteractionLog
pub mod Store
pub mod TurnLease
pub mod Durable
pub mod Gates
pub mod Intents
pub mod Apply
pub mod Reports
pub mod Lifecycle
pub mod Workflow
pub mod Service
pub mod History
