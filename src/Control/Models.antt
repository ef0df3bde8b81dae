-- ===== src/Control/Models.antt =====
-- control/models.py: the wire types of the control plane. Times are microseconds since an epoch; an
-- id that the source draws at random is an argument of the operation that makes the record.
use hydra_mind.Prelude.{
  ℕ, ℤ, String, Bool, Option, none, List, [], Result, key_error, find_first, last?, str_eq,
  or_raise,
}
use hydra_mind.Prelude.Dict.{Dict, Payload}
use hydra_mind.Control.States.{
  SessionStatus, NodeStatus, AttemptStatus, ToolExecutionStatus, GateOutcome, DecisionAction,
}
use hydra_mind.Control.Interactions.{DurableInteraction}

pub record WorkflowNodeSpec : Type 0 where
  pub key : String
  pub role : String
  pub description : String
  pub requires : List String
  pub config : Payload

pub record WorkflowBlueprint : Type 0 where
  pub name : String
  pub version : String
  pub nodes : List WorkflowNodeSpec

unfoldable pub node_spec : WorkflowBlueprint → String → Result WorkflowNodeSpec
node_spec b key = or_raise (find_first (λ n. str_eq n.key key) b.nodes) key_error

pub record ToolExecution : Type 0 where
  pub id : String
  pub node_key : String
  pub execution_id : String
  pub trace_id : Option String
  pub tool_call_id : String
  pub tool_name : String
  pub round_no : ℤ
  pub status : ToolExecutionStatus
  pub arguments : Payload
  pub result_preview : Payload
  pub is_error : Option Bool
  pub content_length : Option ℤ
  pub error : Option String
  pub started_at : ℕ
  pub finished_at : Option ℕ
  pub metadata : Payload

pub record NodeAttempt : Type 0 where
  pub id : String
  pub node_key : String
  pub attempt_no : ℕ
  pub trace_id : Option String
  pub status : AttemptStatus
  pub started_at : ℕ
  pub finished_at : Option ℕ
  pub output : Payload
  pub error : Option String
  pub tool_executions : List ToolExecution
  pub lease_token : Option String
  pub lease_owner : Option String
  pub last_heartbeat_at : Option ℕ
  pub lease_expires_at : Option ℕ

-- `NodeAttempt(node_key=..., attempt_no=..., trace_id=...)`
unfoldable pub new_attempt : String → String → ℕ → Option String → ℕ → NodeAttempt
new_attempt id node_key attempt_no trace_id now = record {
  id = id;
  node_key = node_key;
  attempt_no = attempt_no;
  trace_id = trace_id;
  status = AttemptStatus.running;
  started_at = now;
  finished_at = none;
  output = [];
  error = none;
  tool_executions = [];
  lease_token = none;
  lease_owner = none;
  last_heartbeat_at = none;
  lease_expires_at = none;
}

pub record GateDecision : Type 0 where
  pub id : String
  pub gate_id : String
  pub action : DecisionAction
  pub actor : String
  pub rationale : String
  pub payload : Payload
  pub created_at : ℕ

pub record Gate : Type 0 where
  pub id : String
  pub name : String
  pub node_key : String
  pub outcome : GateOutcome
  pub detail : Payload
  pub created_at : ℕ
  pub decision : Option GateDecision

pub record NodeState : Type 0 where
  pub key : String
  pub status : NodeStatus
  pub attempts : List NodeAttempt
  pub gates : List Gate
  pub updated_at : ℕ

-- `NodeState(key=...)`
unfoldable pub new_node : String → ℕ → NodeState
new_node key now = record {
  key = key;
  status = NodeStatus.queued;
  attempts = [];
  gates = [];
  updated_at = now;
}

abbrev pub latest_attempt : NodeState → Option NodeAttempt
latest_attempt n = last? n.attempts

abbrev pub latest_gate : NodeState → Option Gate
latest_gate n = last? n.gates

pub record IdempotencyRecord : Type 0 where
  pub key : String
  pub kind : String
  pub claimed_at : ℕ
  pub detail : Payload

pub record RuntimeSession : Type 0 where
  pub id : String
  pub workflow_name : String
  pub workflow_version : String
  pub version : ℕ
  pub status : SessionStatus
  pub nodes : Dict NodeState
  pub input_payload : Payload
  pub summary_output : Payload
  pub error_message : Option String
  pub created_at : ℕ
  pub updated_at : ℕ
  pub metadata : Payload
  pub auto_repair_attempts_used : ℕ
  pub processed_idempotency_keys : Dict IdempotencyRecord
  pub durable_interactions : Dict DurableInteraction

pub record GateDecisionInput : Type 0 where
  pub gate_id : String
  pub action : DecisionAction
  pub actor : String
  pub rationale : String
  pub payload : Payload

pub record WorkflowRevision : Type 0 where
  pub current_blueprint : WorkflowBlueprint
  pub revised_blueprint : WorkflowBlueprint
  pub changed_node_keys : List String
  pub reason : String
  pub feedback_refs : List String
  pub metadata : Payload
