-- ===== src/Examples/Evaluators.antt =====
-- A registry whose first evaluator passes and whose second one blocks.
use hydra_mind.Prelude.{ℕ, ◌≡◌, refl, none, some, List, [], ◌∷◌, ok, get_elem?}
use hydra_mind.Control.States.{GateOutcome}
use hydra_mind.Control.Models.{Gate, NodeState, RuntimeSession}
use hydra_mind.Gating.Registry.{GateSeverity, GateEvaluator, applicable, to_gate_fn, applies}
use hydra_mind.Gating.Registry.Halting.{halting_gate_wins, findings, chosen}
use hydra_mind.Gating.Registry.Blocking.{block_needs_blocking, IsBlocker}
use hydra_mind.Examples.Data.{first_attempt, node_with, session_with}
use hydra_mind.Examples.Gates.{open_gate}
use hydra_mind.Examples.Reports.{report_on}

abbrev gate_of : GateOutcome → Gate
gate_of o = record open_gate { outcome = o }

abbrev evaluator : GateSeverity → GateOutcome → GateEvaluator
evaluator severity o = record {
  name = "e";
  contract = record {
    name = "e";
    description = "";
    triggers = [];
    applies_to_nodes = "plan" ∷ [];
    severity = severity;
    timeout = none;
    metadata = [];
  };
  evaluate = λ s n r. ok (some (gate_of o));
}

abbrev registry : List GateEvaluator
registry =
    evaluator GateSeverity.advisory GateOutcome.pass
    ∷ evaluator GateSeverity.blocking GateOutcome.block
    ∷ []

abbrev node : NodeState
node = node_with first_attempt

abbrev session : RuntimeSession
session = session_with first_attempt

halting_gate_wins_example :
    to_gate_fn registry session node (report_on "plan")
    ≡ chosen (findings (applicable registry "plan" none) session node (report_on "plan"))
unfolding applicable applies
halting_gate_wins_example =
    halting_gate_wins registry session node (report_on "plan")
      ((some (gate_of GateOutcome.pass), refl), ((some (gate_of GateOutcome.block), refl), tt))

block_needs_blocking_example :
    (i : ℕ) × (e : GateEvaluator) × (get_elem? registry i ≡ some e)
    × IsBlocker e session node (report_on "plan") (gate_of GateOutcome.block)
unfolding to_gate_fn
block_needs_blocking_example =
    block_needs_blocking registry session node (report_on "plan") (gate_of GateOutcome.block) refl
      refl
