-- ===== src/Control/Gates.antt =====
-- control/session_gates.py: gates on a node, and the decision applied to one.
pub mod Decisions
use hydra_mind.Prelude.{
  ℕ, String, Bool, none, some, [], ◌∷◌, ◌++◌, Result, ok, err, gate_not_found, ◌>>=◌, str_eq,
  find_first, modify_first,
}
use hydra_mind.Prelude.Dict.{Dict, Payload}
use hydra_mind.Control.States.{NodeStatus, GateOutcome, DecisionAction}
use hydra_mind.Control.Models.{Gate, GateDecisionInput, NodeState, RuntimeSession}
use hydra_mind.Control.NodeLifecycle.{node_transition}

-- `Gate(...)` with the id that the source draws
unfoldable pub record_gate :
    NodeState → String → String → String → GateOutcome → Payload → ℕ → NodeState × Gate
record_gate n id node_key name outcome detail now =
    let gate : Gate = record {
      id = id;
      name = name;
      node_key = node_key;
      outcome = outcome;
      detail = detail;
      created_at = now;
      decision = none;
    } in
    (record n { gates = n.gates ++ gate ∷ []; updated_at = now }, gate)

unfoldable pub target_status_for_decision : DecisionAction → NodeStatus
target_status_for_decision DecisionAction.approve = NodeStatus.approved
target_status_for_decision DecisionAction.revise = NodeStatus.needs_revision
target_status_for_decision DecisionAction.replan = NodeStatus.needs_revision
target_status_for_decision DecisionAction.reject = NodeStatus.failed

abbrev pub has_gate_id : String → Gate → Bool
has_gate_id gate_id g = str_eq g.id gate_id

unfoldable pub find_gate : Dict NodeState → String → Result (Gate × NodeState)
find_gate [] gate_id = err gate_not_found
find_gate ((k, n) ∷ d) gate_id = elim (find_first (has_gate_id gate_id) n.gates) [
  | none ↦ find_gate d gate_id
  | some g ↦ ok (g, n)
]

-- The node in which `find_gate` finds the gate is replaced.
unfoldable pub write_gate_node : Dict NodeState → String → NodeState → Dict NodeState
write_gate_node [] gate_id m = []
write_gate_node ((k, n) ∷ d) gate_id m = elim (find_first (has_gate_id gate_id) n.gates) [
  | none ↦ (k, n) ∷ write_gate_node d gate_id m
  | some g ↦ (k, m) ∷ d
]

abbrev pub decided : Gate → GateDecisionInput → String → ℕ → Gate
decided g input id now = record g {
  decision = some (record {
    id = id;
    gate_id = g.id;
    action = input.action;
    actor = input.actor;
    rationale = input.rationale;
    payload = input.payload;
    created_at = now;
  });
}

pub record GateDecisionResult : Type 0 where
  pub gate : Gate
  pub node : NodeState
  pub target_status : NodeStatus

unfoldable pub apply_gate_decision :
    RuntimeSession → GateDecisionInput → String → ℕ → Result (RuntimeSession × GateDecisionResult)
unfolding find_gate write_gate_node target_status_for_decision node_transition
apply_gate_decision s input id now = do
  found ← find_gate s.nodes input.gate_id
  let gate = decided found.0 input id now
  let n = record (found.1) {
    gates = modify_first (has_gate_id input.gate_id) (λ _. gate) found.1.gates;
    updated_at = now;
  }
  let target = target_status_for_decision input.action
  m ← node_transition n target now
  ok (
    record s { nodes = write_gate_node s.nodes input.gate_id m },
    record { gate = gate; node = m; target_status = target },
  )
