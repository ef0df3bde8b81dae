-- ===== src/Control/Service.antt =====
-- control/session_service.py: `SessionService`, one action on the store for each public method. An
-- id, a token, the time and the ISO text of it are arguments; one reading of the clock serves a
-- whole action. The events that the service emits after its writes are left out.
pub mod Sessions
pub mod Nodes
pub mod Executions
pub mod Interactions
pub mod Ledger
pub mod Records
