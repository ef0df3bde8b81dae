-- ===== src/Gating/Registry/Halting.antt =====
-- Which gate the gate function of a registry chooses.
use hydra_mind.Prelude.{
  ◌≡◌, refl, Bool, true, false, not, ◌&&◌, Option, none, some, List, [], ◌∷◌, Result, ok, err,
  arith, runtime_error, if◌then◌else◌, All, find_first,
}
use hydra_mind.Control.States.{GateOutcome}
use hydra_mind.Control.Models.{Gate, NodeState, RuntimeSession}
use hydra_mind.Control.Intents.{AgentReport}
use hydra_mind.Gating.Registry.{
  GateSeverity, GateEvaluator, applies, applicable, is_blocking, remember, on_gate, evaluate_all,
  to_gate_fn,
}

abbrev pub is_block : GateOutcome → Bool
is_block GateOutcome.block = true
is_block _ = false

-- Does a session have to stop for the gate?
abbrev pub halts : GateOutcome → Bool
halts GateOutcome.pass = false
halts _ = true

-- A gate, with the severity of the evaluator that gave it.
pub record Finding : Type 0 where
  pub severity : GateSeverity
  pub gate : Gate

-- What a list of evaluators finds, when none of them raises.
abbrev finding_of : GateSeverity → Result (Option Gate) → List Finding → List Finding
finding_of severity (ok (some g)) rest = record { severity = severity; gate = g } ∷ rest
finding_of severity _ rest = rest

unfoldable pub findings :
    List GateEvaluator → RuntimeSession → NodeState → AgentReport → List Finding
findings [] s n r = []
findings (e ∷ es) s n r = finding_of e.contract.severity (e.evaluate s n r) (findings es s n r)

-- The first finding's gate.
abbrev pub first_gate : List Finding → Option Gate
first_gate [] = none
first_gate (f ∷ fs) = some f.gate

-- A halting finding as the result: a block needs a blocking evaluator.
abbrev pub halt_with : Finding → Result (Option Gate)
halt_with f =
    if is_block f.gate.outcome && not (is_blocking f.severity)
    then err runtime_error
    else ok (some f.gate)

-- The first halting gate wins, and otherwise the first gate.
unfoldable pub chosen : List Finding → Result (Option Gate)
chosen fs = elim (find_first (λ f. halts f.gate.outcome) fs) [
  | some f ↦ halt_with f
  | none ↦ ok (first_gate fs)
]

-- No evaluator of the list raises.
abbrev pub AreQuiet : List GateEvaluator → RuntimeSession → NodeState → AgentReport → Type 0
AreQuiet es s n r = All (λ e. (g : Option Gate) × (e.evaluate s n r ≡ ok g)) es

abbrev first_of : Option Gate → List Finding → Option Gate
first_of none fs = first_gate fs
first_of (some g) fs = some g

chosen_from : Option Gate → List Finding → Result (Option Gate)
chosen_from first_pass fs = elim (find_first (λ f. halts f.gate.outcome) fs) [
  | some f ↦ halt_with f
  | none ↦ ok (first_of first_pass fs)
]

chosen_from-remembered :
    (first_pass : Option Gate) (g : Gate) (severity : GateSeverity) (fs : List Finding)
    → halts g.outcome ≡ false
    → chosen_from (remember first_pass g) fs
      ≡ chosen_from first_pass (record { severity = severity; gate = g } ∷ fs)
unfolding chosen_from
chosen_from-remembered none g severity fs h = ground arith
chosen_from-remembered (some f) g severity fs h = ground arith

on_gate-chosen :
    (severity : GateSeverity) (first_pass g : Option Gate) (fs : List Finding)
    (rest : Option Gate → Result (Option Gate))
    → ((p : Option Gate) → rest p ≡ chosen_from p fs)
    → on_gate severity first_pass (ok g) rest
      ≡ chosen_from first_pass (finding_of severity (ok g) fs)
unfolding chosen_from
on_gate-chosen severity first_pass none fs rest h = h first_pass
on_gate-chosen severity first_pass (some g) fs rest h =
    ground (arith, h (remember first_pass g), chosen_from-remembered first_pass g severity fs)

-- One evaluator, which applies or not.
evaluate_one-chosen :
    (b : Bool) (e : GateEvaluator) (rest : List GateEvaluator) (s : RuntimeSession) (n : NodeState)
    (r : AgentReport) (first_pass : Option Gate) (later : Option Gate → Result (Option Gate))
    → AreQuiet (if b then e ∷ rest else rest) s n r
    → (AreQuiet rest s n r → (p : Option Gate) → later p ≡ chosen_from p (findings rest s n r))
    → (if b
        then on_gate e.contract.severity first_pass (e.evaluate s n r) later
        else later first_pass)
      ≡ chosen_from first_pass (findings (if b then e ∷ rest else rest) s n r)
unfolding findings
evaluate_one-chosen true e rest s n r first_pass later q h =
    rw q.0.1
      (on_gate-chosen e.contract.severity first_pass q.0.0 (findings rest s n r) later (h q.1))
evaluate_one-chosen false e rest s n r first_pass later q h = h q first_pass

evaluate_all-chosen :
    (es : List GateEvaluator) (s : RuntimeSession) (n : NodeState) (r : AgentReport)
    (first_pass : Option Gate)
    → AreQuiet (applicable es n.key r.boundary_event) s n r
    → evaluate_all es s n r first_pass
      ≡ chosen_from first_pass (findings (applicable es n.key r.boundary_event) s n r)
unfolding evaluate_all applicable findings chosen_from
evaluate_all-chosen [] s n r none q = refl
evaluate_all-chosen [] s n r (some f) q = refl
evaluate_all-chosen (e ∷ es) s n r first_pass q =
    evaluate_one-chosen (applies e.contract n.key r.boundary_event) e
      (applicable es n.key r.boundary_event) s n r first_pass (evaluate_all es s n r) q
      (λ k p. evaluate_all-chosen es s n r p k)

-- When no evaluator that applies raises, the gate function gives the first gate of theirs that halts
-- the session, and the first one of all when none halts; a block by an evaluator whose severity is
-- not blocking is a `RuntimeError`.
pub halting_gate_wins :
    (es : List GateEvaluator) (s : RuntimeSession) (n : NodeState) (r : AgentReport)
    → AreQuiet (applicable es n.key r.boundary_event) s n r
    → to_gate_fn es s n r ≡ chosen (findings (applicable es n.key r.boundary_event) s n r)
unfolding to_gate_fn chosen chosen_from
halting_gate_wins es s n r q = evaluate_all-chosen es s n r none q
