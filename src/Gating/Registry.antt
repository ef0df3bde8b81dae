-- ===== src/Gating/Registry.antt =====
-- gating/base.py: what a gate guards, and the registry that makes one gate function of its
-- evaluators. An evaluator is written by the application: what it returns or raises is a field.
pub mod Halting
pub mod Blocking
use hydra_mind.Prelude.{
  ℕ, String, Bool, true, false, not, ◌&&◌, ◌||◌, Option, none, some, List, [], ◌∷◌, ◌++◌, Result,
  ok, err, runtime_error, if◌then◌else◌, keep,
}
use hydra_mind.Prelude.Dict.{Payload}
use hydra_mind.Prelude.Sort.{mem_string}
use hydra_mind.Control.States.{GateOutcome}
use hydra_mind.Control.Models.{Gate, NodeState, RuntimeSession}
use hydra_mind.Control.Intents.{AgentReport}

pub data GateSeverity : Type 0 where
  advisory blocking : GateSeverity

-- A time limit is a number of microseconds.
pub record GateContract : Type 0 where
  pub name : String
  pub description : String
  pub triggers : List String
  pub applies_to_nodes : List String
  pub severity : GateSeverity
  pub timeout : Option ℕ
  pub metadata : Payload

-- not xs
abbrev is_empty : List String → Bool
is_empty [] = true
is_empty (x ∷ xs) = false

-- x is not None and x in xs
abbrev is_one_of : Option String → List String → Bool
is_one_of none xs = false
is_one_of (some x) xs = mem_string x xs

unfoldable pub applies : GateContract → String → Option String → Bool
unfolding mem_string
applies c node_key boundary_event =
    (is_empty c.applies_to_nodes || mem_string node_key c.applies_to_nodes)
    && (is_empty c.triggers || is_one_of boundary_event c.triggers)

pub record GateEvaluator : Type 0 where
  pub name : String
  pub contract : GateContract
  pub evaluate : RuntimeSession → NodeState → AgentReport → Result (Option Gate)

-- `_assert_no_block_capability` does nothing, so registration is an append.
unfoldable pub register : List GateEvaluator → GateEvaluator → List GateEvaluator
register evaluators e = evaluators ++ e ∷ []

unfoldable pub applicable : List GateEvaluator → String → Option String → List GateEvaluator
unfolding applies
applicable evaluators node_key boundary_event =
    keep (λ e. applies e.contract node_key boundary_event) evaluators

abbrev pub is_blocking : GateSeverity → Bool
is_blocking GateSeverity.blocking = true
is_blocking GateSeverity.advisory = false

-- `if first_pass is None: first_pass = gate`
abbrev pub remember : Option Gate → Gate → Option Gate
remember none g = some g
remember (some f) g = some f

-- One round of the loop on what the evaluator gave; `rest` is the loop on the later evaluators.
abbrev pub on_gate :
    GateSeverity
    → Option Gate
    → Result (Option Gate)
    → (Option Gate → Result (Option Gate))
    → Result (Option Gate)
on_gate severity first_pass (err e) rest = err e
on_gate severity first_pass (ok none) rest = rest first_pass
on_gate severity first_pass (ok (some g)) rest = elim g.outcome [
  | GateOutcome.block ↦ if is_blocking severity then ok (some g) else err runtime_error
  | GateOutcome.requires_decision ↦ ok (some g)
  | GateOutcome.pass ↦ rest (remember first_pass g)
]

-- The loop of the gate function.
unfoldable pub evaluate_all :
    List GateEvaluator
    → RuntimeSession
    → NodeState
    → AgentReport
    → Option Gate
    → Result (Option Gate)
unfolding applies
evaluate_all [] s n r first_pass = ok first_pass
evaluate_all (e ∷ es) s n r first_pass =
    let skipped = evaluate_all es s n r first_pass in
    let taken = on_gate e.contract.severity first_pass (e.evaluate s n r) (evaluate_all es s n r) in
    if applies e.contract n.key r.boundary_event then taken else skipped

-- The gate function of a registry.
unfoldable pub to_gate_fn :
    List GateEvaluator → RuntimeSession → NodeState → AgentReport → Result (Option Gate)
unfolding evaluate_all
to_gate_fn evaluators s n r = evaluate_all evaluators s n r none
