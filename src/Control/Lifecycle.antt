-- ===== src/Control/Lifecycle.antt =====
-- control/session_lifecycle.py: how a session is made, changes status and gets new nodes.
pub mod Terminal
use hydra_mind.Prelude.{
  ℕ, String, Bool, true, false, Option, none, some, List, [], ◌∷◌, Result, ok, err,
  invalid_transition, value_error, ◌>>=◌, ◌>>◌, guard, raise_if, if◌then◌else◌, any,
}
use hydra_mind.Prelude.Dict
use hydra_mind.Prelude.Dict.{Dict, Payload}
use hydra_mind.Control.States.{SessionStatus, is_valid_session_transition, is_terminal}
use hydra_mind.Control.Models.{
  NodeState, RuntimeSession, WorkflowBlueprint, WorkflowNodeSpec, new_node,
}
use hydra_mind.Control.Execution.{clear_session_execution_leases}

-- {node.key: NodeState(key=node.key) for node in nodes}, on top of a dict
unfoldable pub add_nodes : Dict NodeState → List WorkflowNodeSpec → ℕ → Dict NodeState
unfolding new_node
add_nodes d [] now = d
add_nodes d (n ∷ ns) now = add_nodes (Dict.put d n.key (new_node n.key now)) ns now

unfoldable pub create_runtime_session :
    WorkflowBlueprint → Payload → Payload → String → ℕ → RuntimeSession
unfolding add_nodes
create_runtime_session b input_payload metadata id now = record {
  id = id;
  workflow_name = b.name;
  workflow_version = b.version;
  version = 0;
  status = SessionStatus.queued;
  nodes = add_nodes [] b.nodes now;
  input_payload = input_payload;
  summary_output = [];
  error_message = none;
  created_at = now;
  updated_at = now;
  metadata = metadata;
  auto_repair_attempts_used = 0;
  processed_idempotency_keys = [];
  durable_interactions = [];
}

unfoldable pub update_session_metadata : RuntimeSession → Payload → Bool → ℕ → RuntimeSession
update_session_metadata s metadata do_merge now = record s {
  metadata = if do_merge then Dict.merge s.metadata metadata else metadata;
  updated_at = now;
}

unfoldable pub add_workflow_nodes :
    RuntimeSession → List WorkflowNodeSpec → ℕ → Result RuntimeSession
unfolding add_nodes
add_workflow_nodes s nodes now = do
  raise_if (any (λ spec. Dict.contains s.nodes spec.key) nodes) value_error
  ok (record s { nodes = add_nodes s.nodes nodes now; updated_at = now })

unfoldable pub transition_session : RuntimeSession → SessionStatus → ℕ → Result RuntimeSession
unfolding is_valid_session_transition clear_session_execution_leases
transition_session s to now = do
  guard (is_valid_session_transition s.status to) invalid_transition
  let moved = record s { status = to; updated_at = now }
  ok (if is_terminal to then clear_session_execution_leases moved else moved)
