-- ===== src/Control/States.antt =====
-- control/states.py: the status enums and the transition tables.
use hydra_mind.Prelude.{Bool, true, false}

pub data SessionStatus : Type 0 where
  queued running waiting_gate resuming completed failed cancelled : SessionStatus

pub data NodeStatus : Type 0 where
  queued running pending_gate approved needs_revision completed failed stale : NodeStatus

pub data AttemptStatus : Type 0 where
  running succeeded failed aborted : AttemptStatus

pub data ToolExecutionStatus : Type 0 where
  started succeeded failed : ToolExecutionStatus

pub data GateOutcome : Type 0 where
  pass requires_decision block : GateOutcome

pub data DecisionAction : Type 0 where
  approve revise replan reject : DecisionAction

pub data ApplyIntentKind : Type 0 where
  complete pause fail requeue workflow_revision : ApplyIntentKind

-- `to_ in _SESSION_TRANSITIONS[from_]`
unfoldable pub is_valid_session_transition : SessionStatus → SessionStatus → Bool
is_valid_session_transition SessionStatus.queued SessionStatus.running = true
is_valid_session_transition SessionStatus.queued SessionStatus.cancelled = true
is_valid_session_transition SessionStatus.running SessionStatus.waiting_gate = true
is_valid_session_transition SessionStatus.running SessionStatus.completed = true
is_valid_session_transition SessionStatus.running SessionStatus.failed = true
is_valid_session_transition SessionStatus.running SessionStatus.cancelled = true
is_valid_session_transition SessionStatus.waiting_gate SessionStatus.resuming = true
is_valid_session_transition SessionStatus.waiting_gate SessionStatus.cancelled = true
is_valid_session_transition SessionStatus.waiting_gate SessionStatus.failed = true
is_valid_session_transition SessionStatus.resuming SessionStatus.running = true
is_valid_session_transition SessionStatus.resuming SessionStatus.failed = true
is_valid_session_transition SessionStatus.resuming SessionStatus.cancelled = true
is_valid_session_transition _ _ = false

-- `to_ in _NODE_TRANSITIONS[from_]`
unfoldable pub is_valid_node_transition : NodeStatus → NodeStatus → Bool
is_valid_node_transition NodeStatus.queued NodeStatus.running = true
is_valid_node_transition NodeStatus.queued NodeStatus.stale = true
is_valid_node_transition NodeStatus.running NodeStatus.queued = true
is_valid_node_transition NodeStatus.running NodeStatus.pending_gate = true
is_valid_node_transition NodeStatus.running NodeStatus.completed = true
is_valid_node_transition NodeStatus.running NodeStatus.failed = true
is_valid_node_transition NodeStatus.pending_gate NodeStatus.approved = true
is_valid_node_transition NodeStatus.pending_gate NodeStatus.needs_revision = true
is_valid_node_transition NodeStatus.pending_gate NodeStatus.failed = true
is_valid_node_transition NodeStatus.approved NodeStatus.completed = true
is_valid_node_transition NodeStatus.approved NodeStatus.stale = true
is_valid_node_transition NodeStatus.needs_revision NodeStatus.queued = true
is_valid_node_transition NodeStatus.needs_revision NodeStatus.failed = true
is_valid_node_transition NodeStatus.completed NodeStatus.stale = true
is_valid_node_transition NodeStatus.stale NodeStatus.queued = true
is_valid_node_transition _ _ = false

-- `to_ in _ATTEMPT_TRANSITIONS[from_]`
unfoldable pub is_valid_attempt_transition : AttemptStatus → AttemptStatus → Bool
is_valid_attempt_transition AttemptStatus.running AttemptStatus.succeeded = true
is_valid_attempt_transition AttemptStatus.running AttemptStatus.failed = true
is_valid_attempt_transition AttemptStatus.running AttemptStatus.aborted = true
is_valid_attempt_transition _ _ = false

-- `status is AttemptStatus.RUNNING`
abbrev pub is_running_attempt : AttemptStatus → Bool
is_running_attempt AttemptStatus.running = true
is_running_attempt _ = false

-- `status in _TERMINAL_SESSION_STATUSES`
abbrev pub is_terminal : SessionStatus → Bool
is_terminal SessionStatus.completed = true
is_terminal SessionStatus.failed = true
is_terminal SessionStatus.cancelled = true
is_terminal _ = false
