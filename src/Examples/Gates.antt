-- ===== src/Examples/Gates.antt =====
-- Two decisions on one gate.
use hydra_mind.Prelude.{◌≡◌, refl, true, false, none, [], ◌∷◌, ok, err, invalid_transition}
use hydra_mind.Control.States.{NodeStatus, GateOutcome, DecisionAction}
use hydra_mind.Control.Models.{Gate, GateDecisionInput, NodeState, RuntimeSession}
use hydra_mind.Control.Gates.{GateDecisionResult, apply_gate_decision, decided}
use hydra_mind.Control.Gates.Decisions.{second_decision, can_follow}
use hydra_mind.Examples.Data.{first_attempt, node_with, session_with}

abbrev pub open_gate : Gate
open_gate = record {
  id = "g1";
  name = "review";
  node_key = "plan";
  outcome = GateOutcome.requires_decision;
  detail = [];
  created_at = 0;
  decision = none;
}

abbrev input_for : DecisionAction → GateDecisionInput
input_for action = record {
  gate_id = "g1";
  action = action;
  actor = "lead";
  rationale = "";
  payload = [];
}

abbrev node_at : NodeStatus → Gate → NodeState
node_at status g = record (node_with first_attempt) {
  status = status;
  gates = g ∷ [];
  updated_at = 5;
}

abbrev session_at : NodeStatus → Gate → RuntimeSession
session_at status g = record (session_with first_attempt) {
  nodes = ("plan", node_at status g) ∷ [];
}

abbrev revised_gate : Gate
revised_gate = decided open_gate (input_for DecisionAction.revise) "d1" 5

abbrev revised : RuntimeSession × GateDecisionResult
revised = (
  session_at NodeStatus.needs_revision revised_gate,
  record {
    gate = revised_gate;
    node = node_at NodeStatus.needs_revision revised_gate;
    target_status = NodeStatus.needs_revision;
  },
)

revision_applies :
    apply_gate_decision
      (session_at NodeStatus.pending_gate open_gate)
      (input_for DecisionAction.revise)
      "d1"
      5
    ≡ ok revised
unfolding apply_gate_decision
revision_applies = refl

second_decision_example :
    (can_follow DecisionAction.revise DecisionAction.reject ≡ true
      → (t : RuntimeSession × GateDecisionResult) × (apply_gate_decision revised.0
            (input_for DecisionAction.reject)
            "d2"
            9
          ≡ ok t)
        × (t.1.node.status ≡ NodeStatus.failed))
    × (can_follow DecisionAction.revise DecisionAction.reject ≡ false
        → apply_gate_decision revised.0 (input_for DecisionAction.reject) "d2" 9
          ≡ err invalid_transition)
second_decision_example =
    second_decision (session_at NodeStatus.pending_gate open_gate) (input_for DecisionAction.revise)
      (input_for DecisionAction.reject) "d1" "d2" 5 9 revised revision_applies refl
