-- ===== src/Control/Gates/Decisions.antt =====
-- A decision on a gate, and a second one.
use hydra_mind.Prelude.{
  ℕ, String, ◌≡◌, refl, Bool, true, false, some, [], ◌∷◌, ok, err, arith, invalid_transition,
  find_first, modify_first, >>=-eq-ok, ok-injective, subst, inl, inr, Option-cases,
}
use hydra_mind.Prelude.Dict.{Dict}
use hydra_mind.Control.States.{NodeStatus, DecisionAction, is_valid_node_transition}
use hydra_mind.Control.Models.{Gate, GateDecisionInput, NodeState, RuntimeSession}
use hydra_mind.Control.NodeLifecycle.{node_transition}
use hydra_mind.Control.Execution.Search.{find_first-modify_first, find_first_test}
use hydra_mind.Control.Gates.{
  has_gate_id, find_gate, write_gate_node, decided, GateDecisionResult, target_status_for_decision,
  apply_gate_decision,
}

find_gate-found :
    (d : Dict NodeState) (id : String) {g : Gate} {n : NodeState}
    → find_gate d id ≡ ok (g, n)
    → find_first (has_gate_id id) n.gates ≡ some g
unfolding find_gate
find_gate-found [] id h = cc
find_gate-found ((k, x) ∷ d) id {g} {n} h = ground (arith, find_gate-found d id {g = g} {n = n})

find_gate-write :
    (d : Dict NodeState) (id : String) (m : NodeState) {g h : Gate} {n : NodeState}
    → find_gate d id ≡ ok (g, n)
    → find_first (has_gate_id id) m.gates ≡ some h
    → find_gate (write_gate_node d id m) id ≡ ok (h, m)
unfolding find_gate write_gate_node
find_gate-write [] id m e f = cc
find_gate-write ((k, x) ∷ d) id m {g} {h} {n} e f =
    elim (Option-cases (find_first (has_gate_id id) x.gates)) [
      | inl free ↦
          rw (free, write_gate_node)
            (rw (free, find_gate) (find_gate-write d id m {n = n} (rw (free, find_gate) at e) f))
      | inr (g', found) ↦ rw (found, write_gate_node) (rw (f, find_gate))
    ]

-- Whether a decision can follow another one on the same gate.
abbrev pub can_follow : DecisionAction → DecisionAction → Bool
can_follow DecisionAction.revise DecisionAction.reject = true
can_follow DecisionAction.replan DecisionAction.reject = true
can_follow _ _ = false

after_target :
    (a b : DecisionAction)
    → is_valid_node_transition (target_status_for_decision a) (target_status_for_decision b)
      ≡ can_follow a b
unfolding is_valid_node_transition target_status_for_decision
after_target a b = ground arith

transition_written :
    (n : NodeState) (to : NodeStatus) (now : ℕ) {m : NodeState}
    → node_transition n to now ≡ ok m
    → (m.status ≡ to) × (m.gates ≡ n.gates)
unfolding node_transition
transition_written n to now h = ground arith

-- What a decision that succeeds has written.
decision-written :
    (s : RuntimeSession) (input : GateDecisionInput) (id : String) (now : ℕ)
    (r : RuntimeSession × GateDecisionResult)
    → apply_gate_decision s input id now ≡ ok r
    → (find_gate r.0.nodes input.gate_id ≡ ok (r.1.gate, r.1.node))
      × (r.1.node.status ≡ target_status_for_decision input.action)
unfolding apply_gate_decision
decision-written s input id now r h =
    let ((g, n), found, rest) = >>=-eq-ok (find_gate s.nodes input.gate_id) _ h in
    let changed : NodeState = record n {
      gates = modify_first (has_gate_id input.gate_id) (λ _. decided g input id now) n.gates;
      updated_at = now;
    } in
    let (m, moved, same) =
      >>=-eq-ok (node_transition changed (target_status_for_decision input.action) now) _ rest in
    let gate = decided g input id now in
    let here = find_gate-found s.nodes input.gate_id {g = g} {n = n} found in
    let named = find_first_test (has_gate_id input.gate_id) n.gates {a = g} here in
    let (status, gates) =
      transition_written changed (target_status_for_decision input.action) now moved in
    subst
      (λ (q : RuntimeSession × GateDecisionResult).
        (find_gate q.0.nodes input.gate_id ≡ ok (q.1.gate, q.1.node))
        × (q.1.node.status ≡ target_status_for_decision input.action))
      (ok-injective same)
      (
        find_gate-write s.nodes input.gate_id m {n = n} found (
            rw gates (find_first-modify_first (has_gate_id input.gate_id) gate n.gates named here)),
        status,
      )

follow_fails :
    (a b : DecisionAction)
    → can_follow a b ≡ true
    → target_status_for_decision b ≡ NodeStatus.failed
unfolding target_status_for_decision
follow_fails a b h = ground arith

-- After a decision on a gate a second decision on the same gate succeeds exactly if the first one
-- sent the node back, by a revision or a new plan, and the second one rejects it; every other
-- second decision raises an invalid transition.
pub second_decision :
    (s : RuntimeSession) (first second : GateDecisionInput) (id id' : String) (now later : ℕ)
    (r : RuntimeSession × GateDecisionResult)
    → apply_gate_decision s first id now ≡ ok r
    → second.gate_id ≡ first.gate_id
    → (can_follow first.action second.action ≡ true
        → (t : RuntimeSession × GateDecisionResult) × (apply_gate_decision r.0 second id' later
            ≡ ok t)
          × (t.1.node.status ≡ NodeStatus.failed))
      × (can_follow first.action second.action ≡ false
          → apply_gate_decision r.0 second id' later ≡ err invalid_transition)
unfolding apply_gate_decision node_transition
second_decision s first second id id' now later r h same =
    let (found, target) = decision-written s first id now r h in
    let n : NodeState = record (r.1.node) {
      gates =
          modify_first (has_gate_id second.gate_id) (λ _. decided r.1.gate second id' later)
            r.1.node.gates;
      updated_at = later;
      status = target_status_for_decision second.action;
    } in
    let t : RuntimeSession × GateDecisionResult = (
      record (r.0) { nodes = write_gate_node r.0.nodes second.gate_id n },
      record {
        gate = decided r.1.gate second id' later;
        node = n;
        target_status = target_status_for_decision second.action;
      },
    ) in
    (
      λ yes. (
        t,
        rw (same)
            (rw (found) (rw (target) (rw (after_target first.action second.action) (rw yes refl)))),
        follow_fails first.action second.action yes,
      ),
      λ no.
          rw (same)
            (rw (found) (rw (target) (rw (after_target first.action second.action) (rw no refl)))),
    )
