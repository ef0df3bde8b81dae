-- ===== src/Control/History/Calls.antt =====
-- The methods of `SessionService` that write and those of the control plane, as values, and a history
-- of calls of them. An exception ends its call, not the history.
use hydra_mind.Prelude.{ℕ, ℤ, String, Bool, Option, List, [], ◌∷◌, Json}
use hydra_mind.Prelude.Dict.{Payload}
use hydra_mind.Kernel.Contracts.{MessageRole, TurnStatus, InteractionStatus}
use hydra_mind.Mas.Votes.{VoteOutcome, CoordinatorOutcome}
use hydra_mind.Control.States.{SessionStatus, NodeStatus, GateOutcome}
use hydra_mind.Control.Models.{
  WorkflowBlueprint, WorkflowNodeSpec, WorkflowRevision, GateDecisionInput,
}
use hydra_mind.Control.Store.{SessionStore}
use hydra_mind.Control.Service.Sessions.{
  create_session, session_transition, complete_session, fail_session, update_session_metadata,
  add_workflow_nodes, apply_workflow_revision,
}
use hydra_mind.Control.Service.Nodes.{
  node_only_transition, complete_node, fail_node, requeue_node_for_retry, record_gate,
  apply_gate_decision,
}
use hydra_mind.Control.Service.Executions.{
  start_attempt, recover_expired_node_executions, grant_execution_lease, heartbeat_execution_lease,
  release_execution_lease,
}
use hydra_mind.Control.Service.Interactions.{
  start_interaction, record_interaction_turn, record_interaction_message,
  record_interaction_outcome, complete_interaction, mark_interaction_resumed, grant_turn_lease,
  heartbeat_turn_lease, release_turn_lease, recover_expired_turn_leases,
}
use hydra_mind.Control.Service.Ledger.{
  reserve_auto_repair_attempt, claim_idempotency_key, record_tool_effect_result,
}
use hydra_mind.Control.ToolRecords.{ToolStart, ToolEnd}
use hydra_mind.Control.InteractionLog.{InteractionLogRecord}
use hydra_mind.Control.Service.Records.{
  record_tool_execution_started, record_tool_execution_completed, record_interaction_event,
}
use hydra_mind.Control.Intents.{AgentReport, ApplyIntent}
use hydra_mind.Control.Apply.{apply_node_intent, apply_decision}
use hydra_mind.Control.Reports.{
  FreshIds, GateFn, ApplyDeriver, consume_agent_report, open_runtime_decision,
}

pub data Call : Type 0 where
  create : WorkflowBlueprint → Payload → Payload → String → ℕ → Call
  transition : String → SessionStatus → ℕ → Call
  complete : String → Payload → ℕ → Call
  fail : String → String → ℕ → Call
  update_metadata : String → Payload → Bool → ℕ → Call
  add_nodes : String → List WorkflowNodeSpec → ℕ → Call
  revise : String → WorkflowRevision → ℕ → String → Call
  node_transition : String → String → NodeStatus → ℕ → Call
  node_complete : String → String → Option Payload → ℕ → Call
  node_fail : String → String → String → ℕ → Call
  node_requeue : String → String → String → ℕ → Call
  gate : String → String → String → String → GateOutcome → Payload → ℕ → Call
  decide : String → GateDecisionInput → String → ℕ → Call
  attempt : String → String → Option String → String → ℕ → Call
  recover : String → ℕ → Call
  grant : String → String → String → String → ℤ → Option String → String → ℕ → Call
  heartbeat : String → String → String → ℤ → ℕ → Call
  release : String → String → String → ℕ → Call
  interaction :
      String
      → String
      → String
      → String
      → String
      → String
      → String
      → List String
      → Option String
      → ℕ
      → Call
  turn : String → String → ℕ → String → TurnStatus → ℕ → Call
  message : String → String → ℕ → String → String → MessageRole → Option String → ℕ → Call
  outcome : String → String → Option VoteOutcome → Option CoordinatorOutcome → ℕ → Call
  end_interaction : String → String → InteractionStatus → Option String → ℕ → Call
  resume : String → String → ℤ → ℕ → Call
  turn_grant : String → String → ℕ → String → String → ℤ → Option String → String → ℕ → Call
  turn_heartbeat : String → String → ℕ → String → ℤ → ℕ → Call
  turn_release : String → String → ℕ → String → Bool → ℕ → Call
  turn_recover : String → ℕ → Call
  reserve : String → ℤ → ℕ → Call
  claim : String → String → String → Payload → ℕ → Call
  tool_effect : String → String → String → String → ℕ → Call
  tool_started : (Payload → Payload) → String → String → ToolStart → String → ℕ → Call
  tool_ended : String → String → String → ToolEnd → ℕ → Call
  event : (InteractionLogRecord → Json) → String → InteractionLogRecord → ℕ → Call
  consume : String → AgentReport → String → ℕ → Call
  apply : String → ApplyIntent → Option AgentReport → String → (ℕ → ℕ) → Call
  decide_gate : String → GateDecisionInput → String → String → (ℕ → ℕ) → Call
  report : Option GateFn → Option ApplyDeriver → String → AgentReport → FreshIds → (ℕ → ℕ) → Call

-- The store after a call.
unfoldable pub perform : Call → SessionStore → SessionStore
perform (create b input metadata id now) st = (create_session b input metadata id now st).1
perform (transition id to now) st = (session_transition id to now st).1
perform (complete id summary now) st = (complete_session id summary now st).1
perform (fail id error now) st = (fail_session id error now st).1
perform (update_metadata id metadata do_merge now) st =
    (update_session_metadata id metadata do_merge now st).1
perform (add_nodes id nodes now) st = (add_workflow_nodes id nodes now st).1
perform (revise id revision now applied_at) st =
    (apply_workflow_revision id revision now applied_at st).1
perform (node_transition id key to now) st = (node_only_transition id key to now st).1
perform (node_complete id key output now) st = (complete_node id key output now st).1
perform (node_fail id key error now) st = (fail_node id key error now st).1
perform (node_requeue id key reason now) st = (requeue_node_for_retry id key reason now st).1
perform (gate id key gate_id name result detail now) st =
    (record_gate id key gate_id name result detail now st).1
perform (decide id input decision_id now) st = (apply_gate_decision id input decision_id now st).1
perform (attempt id key trace_id attempt_id now) st =
    (start_attempt id key trace_id attempt_id now st).1
perform (recover id now) st = (recover_expired_node_executions id now st).1
perform (grant id key execution_id owner ttl token fresh now) st =
    (grant_execution_lease id key execution_id owner ttl token fresh now st).1
perform (heartbeat id execution_id token ttl now) st =
    (heartbeat_execution_lease id execution_id token ttl now st).1
perform (release id execution_id token now) st =
    (release_execution_lease id execution_id token now st).1
perform (interaction id iid key execution_id team_id mode topology members workspace now) st =
    (start_interaction id iid key execution_id team_id mode topology members workspace now st).1
perform (turn id iid index agent_id status now) st =
    (record_interaction_turn id iid index agent_id status now st).1
perform (message id iid index sender content role in_reply_to now) st =
    (record_interaction_message id iid index sender content role in_reply_to now st).1
perform (outcome id iid vote decided now) st =
    (record_interaction_outcome id iid vote decided now st).1
perform (end_interaction id iid status error now) st =
    (complete_interaction id iid status error now st).1
perform (resume id iid index now) st = (mark_interaction_resumed id iid index now st).1
perform (turn_grant id iid index agent_id owner ttl token fresh now) st =
    (grant_turn_lease id iid index agent_id owner ttl token fresh now st).1
perform (turn_heartbeat id iid index token ttl now) st =
    (heartbeat_turn_lease id iid index token ttl now st).1
perform (turn_release id iid index token completed now) st =
    (release_turn_lease id iid index token completed now st).1
perform (turn_recover id now) st = (recover_expired_turn_leases id now st).1
perform (reserve id max_attempts now) st = (reserve_auto_repair_attempt id max_attempts now st).1
perform (claim id key kind detail now) st = (claim_idempotency_key id key kind detail now st).1
perform (tool_effect id fingerprint tool_call_id content now) st =
    (record_tool_effect_result id fingerprint tool_call_id content now st).1
perform (tool_started redact id execution_id c fresh now) st =
    (record_tool_execution_started redact id execution_id c fresh now st).1
perform (tool_ended id execution_id tool_call_id e now) st =
    (record_tool_execution_completed id execution_id tool_call_id e now st).1
perform (event dump id r now) st = (record_interaction_event dump id r now st).1
perform (consume id r fresh now) st = (consume_agent_report id r fresh now st).1
perform (apply id i r gate_id clock) st = (apply_node_intent id i r gate_id clock st).1
perform (decide_gate id input decision_id gate_id clock) st =
    (apply_decision id input decision_id gate_id clock st).1
perform (report gate_fn derive id r ids clock) st =
    (open_runtime_decision gate_fn derive id r ids clock st).1

unfoldable pub run : List Call → SessionStore → SessionStore
unfolding perform
run [] st = st
run (c ∷ cs) st = run cs (perform c st)
