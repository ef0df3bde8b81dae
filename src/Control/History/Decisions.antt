-- ===== src/Control/History/Decisions.antt =====
-- The status that a decision of the control plane reports is the one that the store has.
use hydra_mind.Prelude.{
  truthy, node_not_found, ℕ, String, ◌≡◌, refl, ap, sym, ◌∙◌, subst, Bool, true, false, Option,
  none, some, List, [], ok, if◌then◌else◌, or_raise, ok-injective,
}
use hydra_mind.Prelude.Exec.{pure, ◌>>=◌}
use hydra_mind.Prelude.Dict
use hydra_mind.Prelude.Dict.{Dict, Payload, get-put}
use hydra_mind.Control.States.{NodeStatus, SessionStatus, ApplyIntentKind}
use hydra_mind.Control.Models.{GateDecisionInput, NodeState}
use hydra_mind.Control.Intents.{AgentReport, ApplyIntent, RuntimeDecision, RuntimeDecisionKind}
use hydra_mind.Control.Store.{SessionStore, Action, get_session}
use hydra_mind.Control.Store.Reads.{bind-ok, get_session-ok}
use hydra_mind.Control.Store.Extension.{WellFormed}
use hydra_mind.Control.Store.Rules.{IsSafe-quiet, IsQuiet-lift, IsQuiet-get}
use hydra_mind.Control.Service.Nodes.{get_node, fail_node}
use hydra_mind.Control.Service.Sessions.{fail_session}
use hydra_mind.Control.Apply.{
  fail_unless_failed, apply_pause, apply_fail, apply_requeue, apply_complete, apply_kind,
  apply_node_intent, apply_decision, error_or, decision,
}
use hydra_mind.Control.History.SafeApply.{
  resume-IsSafe, ensure-IsSafe, release_report-IsSafe, get_node-IsSafe, fail_unless-IsSafe,
  accepting-IsSafe, executing-IsSafe, lease-IsSafe, started-IsSafe,
}
use hydra_mind.Control.History.SafeNodes.{
  complete_node-IsSafe, requeue-IsSafe, gate-IsSafe, decide-IsSafe, consume-IsSafe,
  node_transition-IsSafe,
}
use hydra_mind.Control.History.Safe.{transition-IsSafe, fail-IsSafe}
use hydra_mind.Control.Reports.{FreshIds, GateFn, ApplyDeriver, apply_report, open_runtime_decision}
use hydra_mind.Control.History.Calls.{Call, run}
use hydra_mind.Control.History.Permanent.{reachable-WellFormed}
use hydra_mind.Control.History.Recorded.{
  Ends, EndsFrom, HasNode, Ends-later, Ends-then, EndsFrom-then, complete_node-HasNode,
  fail_node-HasNode, node_transition-HasNode, requeue-HasNode, transition-keeps, ensure-keeps,
  fail_session-keeps,
}

-- The decision is about a node of the session, and the store has the status that it reports.
abbrev pub IsRecorded : String → RuntimeDecision → SessionStore → Type 0
IsRecorded id d = HasNode id d.node_key d.node_status

reported-IsRecorded :
    (id : String) (d : RuntimeDecision)
    → EndsFrom (HasNode id d.node_key d.node_status) (IsRecorded id) (pure d)
unfolding ◌>>=◌
reported-IsRecorded id d = record {
  at = λ st st' a w q h.
      subst (λ (x : RuntimeDecision). HasNode id x.node_key x.node_status st')
        (ok-injective (ap (λ x. x.0) h))
        (subst (HasNode id d.node_key d.node_status) (ap (λ x. x.1) h) q);
}

fail_unless-HasNode :
    (id key error : String) (now : ℕ) (status : NodeStatus) (st st' : SessionStore) (u : Unit {0})
    → WellFormed st
    → HasNode id key status st
    → fail_unless_failed id key error now status st ≡ (ok u, st')
    → HasNode id key NodeStatus.failed st'
unfolding ◌>>=◌
fail_unless-HasNode id key error now NodeStatus.failed st st' u w q h =
    subst (HasNode id key NodeStatus.failed) (ap (λ x. x.1) h) q
fail_unless-HasNode id key error now _ st st' u w q h =
    let (n, e, rest) = bind-ok (fail_node id key error now) _ st st' u h in
    subst (HasNode id key NodeStatus.failed) (ap (λ x. x.1) rest) (
      (fail_node-HasNode id key error now).at st (fail_node id key error now st).1 n w
        (ap (λ r. (r, (fail_node id key error now st).1)) e))

required-ok : (o : Option NodeState) (n : NodeState) → or_raise o node_not_found ≡ ok n → o ≡ some n
required-ok none n h = cc h
required-ok (some m) n h = ap some (ok-injective h)

get_node-HasNode :
    (id key : String) (st st' : SessionStore) (n : NodeState)
    → get_node id key st ≡ (ok n, st')
    → (st' ≡ st) × HasNode id key n.status st
unfolding get_node ◌>>=◌
get_node-HasNode id key st st' n h =
    let (s, e, rest) = bind-ok (get_session id) _ st st' n h in
    let read = get_session-ok id st s e in
    (
      sym (ap (λ x. x.1) rest) ∙ read.1,
      (s, n, read.0, required-ok (Dict.get s.nodes key) n (ap (λ x. x.0) rest), refl),
    )

module _ (id key : String) (i : ApplyIntent) (r : Option AgentReport) (gate_id : String)
    (clock : ℕ → ℕ) where
  complete-IsRecorded : Ends (IsRecorded id) (apply_complete id key i r clock)
  unfolding apply_complete
  complete-IsRecorded = Ends-later _ _ _ (resume-IsSafe id (clock 0)) (λ resumed.
      Ends-then _ _ _ _ (complete_node-IsSafe id key (some i.output) (clock 1))
        (complete_node-HasNode id key (some i.output) (clock 1))
        (λ n.
          EndsFrom-then _ _ _ _ (ensure-IsSafe id (clock 2)) (ensure-keeps id key _ (clock 2))
            (λ running. reported-IsRecorded id _)))

  requeue-IsRecorded : Ends (IsRecorded id) (apply_requeue id key i r clock)
  unfolding apply_requeue
  requeue-IsRecorded = Ends-later _ _ _ (resume-IsSafe id (clock 0)) (λ resumed.
      Ends-then _ _ _ _ (requeue-IsSafe id key _ (clock 1)) (requeue-HasNode id key _ (clock 1))
        (λ n.
          EndsFrom-then _ _ _ _ (ensure-IsSafe id (clock 2)) (ensure-keeps id key _ (clock 2))
            (λ running. reported-IsRecorded id _)))

  pause-IsRecorded : Ends (IsRecorded id) (apply_pause id key i r gate_id clock)
  unfolding apply_pause
  pause-IsRecorded = Ends-later _ _ _ (IsSafe-quiet _ (IsQuiet-lift _)) (λ g.
      Ends-later _ _ _ (gate-IsSafe id key gate_id g.name g.outcome _ (clock 0)) (λ recorded.
        Ends-later _ _ _ (release_report-IsSafe id r (clock 1)) (λ released.
          Ends-then _ _ _ _ (node_transition-IsSafe id key NodeStatus.pending_gate (clock 2))
            (node_transition-HasNode id key NodeStatus.pending_gate (clock 2))
            (λ n.
              EndsFrom-then _ _ _ _ (transition-IsSafe id SessionStatus.waiting_gate (clock 3))
                (transition-keeps id key _ SessionStatus.waiting_gate (clock 3))
                (λ s. reported-IsRecorded id _)))))

  fail-IsRecorded : Ends (IsRecorded id) (apply_fail id key i r clock)
  unfolding apply_fail
  fail-IsRecorded = record {
    at = λ st st' d w h.
        let (n, e, rest) = bind-ok (get_node id key) _ st st' d h in
        let read = get_node-HasNode id key st _ n (ap (λ x. (x, (get_node id key st).1)) e) in
        (failed_later n.status).at (get_node id key st).1 st' d
          ((get_node-IsSafe id key).at st w).formed
          (subst (HasNode id key n.status) (sym read.0) read.1) rest;
  }
    where
      failed_later :
          (status : NodeStatus)
          → EndsFrom (HasNode id key status) (IsRecorded id) (
              fail_unless_failed id key
                (error_or i.error "control-plane fail intent")
                (clock 0)
                status
              >>= (λ failed.
                  fail_session id (error_or i.error "control-plane fail intent") (clock 1) >>= (λ s.
                    pure
                      (record (decision RuntimeDecisionKind.fail id key NodeStatus.failed i.gate
                        r) { error = some (error_or i.error "control-plane fail intent") }))))
      failed_later status = record {
        at = λ st st' d w q h.
            let error = error_or i.error "control-plane fail intent" in
            let first = fail_unless_failed id key error (clock 0) status in
            let (u, e, rest) = bind-ok first _ st st' d h in
            (EndsFrom-then _ _ _ _ (fail-IsSafe id error (clock 1))
                (fail_session-keeps id key NodeStatus.failed error (clock 1))
                (λ s. reported-IsRecorded id _)).at
              (first st).1 st' d ((fail_unless-IsSafe id key error (clock 0) status).at st w).formed
              (fail_unless-HasNode id key error (clock 0) status st (first st).1 u w q
                (ap (λ x. (x, (first st).1)) e))
              rest;
      }

kind-IsRecorded :
    (kind : ApplyIntentKind) (id key : String) (i : ApplyIntent) (r : Option AgentReport)
    (gate_id : String) (clock : ℕ → ℕ)
    → Ends (IsRecorded id) (apply_kind kind id key i r gate_id clock)
unfolding apply_kind ◌>>=◌
kind-IsRecorded ApplyIntentKind.pause id key i r gate_id clock =
    pause-IsRecorded id key i r gate_id clock
kind-IsRecorded ApplyIntentKind.fail id key i r gate_id clock =
    fail-IsRecorded id key i r gate_id clock
kind-IsRecorded ApplyIntentKind.requeue id key i r gate_id clock =
    requeue-IsRecorded id key i r gate_id clock
kind-IsRecorded ApplyIntentKind.complete id key i r gate_id clock =
    complete-IsRecorded id key i r gate_id clock
kind-IsRecorded ApplyIntentKind.workflow_revision id key i r gate_id clock = record {
  at = λ st st' d w h. cc h;
}

pub intent-IsRecorded :
    (id : String) (i : ApplyIntent) (r : Option AgentReport) (gate_id : String) (clock : ℕ → ℕ)
    → Ends (IsRecorded id) (apply_node_intent id i r gate_id clock)
unfolding apply_node_intent
intent-IsRecorded id i r gate_id clock =
    Ends-later _ _ _ (IsSafe-quiet _ (IsQuiet-lift _))
      (λ key. kind-IsRecorded i.kind id key i r gate_id clock)

decision-IsRecorded :
    (id : String) (input : GateDecisionInput) (decision_id gate_id : String) (clock : ℕ → ℕ)
    → Ends (IsRecorded id) (apply_decision id input decision_id gate_id clock)
unfolding apply_decision
decision-IsRecorded id input decision_id gate_id clock =
    Ends-later _ _ _ (decide-IsSafe id input decision_id (clock 0)) (λ g.
      Ends-later _ _ _ (get_node-IsSafe id g.node_key) (λ n.
        Ends-later _ _ _ (IsSafe-quiet _ (IsQuiet-lift _))
          (λ i. intent-IsRecorded id i none gate_id _)))

Ends-if :
    {A : Type 0} (P : A → SessionStore → Type 0) (b : Bool) (m n : Action A)
    → Ends P m
    → Ends P n
    → Ends P (if b then m else n)
Ends-if P true m n p q = p
Ends-if P false m n p q = q

apply_report-IsRecorded :
    (g : Option GateFn) (derive : Option ApplyDeriver) (id : String) (r : AgentReport)
    (ids : FreshIds) (clock : ℕ → ℕ) (n : NodeState)
    → Ends (IsRecorded id) (apply_report g derive id r ids clock n)
unfolding apply_report
apply_report-IsRecorded g derive id r ids clock n =
    Ends-if _ (truthy r.error) _ _
      (Ends-later _ _ _ (IsSafe-quiet _ (IsQuiet-lift _))
        (λ i. intent-IsRecorded id i (some r) ids.gate_id _))
      (Ends-later _ _ _ (started-IsSafe id r ids.attempt_id (clock 3) n) (λ started.
        Ends-later _ _ _ (consume-IsSafe id r ids.report_attempt_id (clock 4)) (λ consumed.
          Ends-later _ _ _ (IsSafe-quiet _ (IsQuiet-get id)) (λ s.
            Ends-later _ _ _ (IsSafe-quiet _ (IsQuiet-lift _)) (λ m.
              Ends-later _ _ _ (IsSafe-quiet _ (IsQuiet-lift _)) (λ gate.
                Ends-later _ _ _ (IsSafe-quiet _ (IsQuiet-lift _))
                  (λ i. intent-IsRecorded id i (some r) ids.gate_id _)))))))

report-IsRecorded :
    (g : Option GateFn) (derive : Option ApplyDeriver) (id : String) (r : AgentReport)
    (ids : FreshIds) (clock : ℕ → ℕ)
    → Ends (IsRecorded id) (open_runtime_decision g derive id r ids clock)
unfolding open_runtime_decision
report-IsRecorded g derive id r ids clock = Ends-later _ _ _ (IsSafe-quiet _ (IsQuiet-get id)) (λ s.
    Ends-later _ _ _ (accepting-IsSafe id (clock 0) s s.status) (λ t.
      Ends-later _ _ _ (IsSafe-quiet _ (IsQuiet-lift _)) (λ m.
        Ends-later _ _ _ (executing-IsSafe id r.node_key (clock 1) m m.status) (λ n.
          Ends-later _ _ _ (lease-IsSafe id n r (clock 2))
            (λ checked. apply_report-IsRecorded g derive id r ids clock n)))))

-- The ways in which the control plane comes to a decision on a session: an intent, a decision on a
-- gate, and a report.
pub data IsDecided (id : String) (st : SessionStore) (d : RuntimeDecision) (st' : SessionStore)
    : Type 0 where
  by_intent :
      (i : ApplyIntent) (r : Option AgentReport) (gate_id : String) (clock : ℕ → ℕ)
      → apply_node_intent id i r gate_id clock st ≡ (ok d, st')
      → IsDecided id st d st'
  by_gate :
      (input : GateDecisionInput) (decision_id gate_id : String) (clock : ℕ → ℕ)
      → apply_decision id input decision_id gate_id clock st ≡ (ok d, st')
      → IsDecided id st d st'
  by_report :
      (g : Option GateFn) (derive : Option ApplyDeriver) (r : AgentReport) (ids : FreshIds)
      (clock : ℕ → ℕ)
      → open_runtime_decision g derive id r ids clock st ≡ (ok d, st')
      → IsDecided id st d st'

-- Take a store that a history of calls has reached, and a decision that the control plane returns on a
-- session there: for an intent, for a decision on a gate or for a report, with any gate evaluator and
-- deriver. Then the store holds the session, with the node that the decision names, and the node has
-- the status that the decision reports.
pub decided-IsRecorded :
    (before : List Call) (id : String) (d : RuntimeDecision) (st' : SessionStore)
    → IsDecided id (run before []) d st'
    → IsRecorded id d st'
decided-IsRecorded before id d st' (IsDecided.by_intent i r gate_id clock h) =
    (intent-IsRecorded id i r gate_id clock).at _ st' d (reachable-WellFormed before) h
decided-IsRecorded before id d st' (IsDecided.by_gate input decision_id gate_id clock h) =
    (decision-IsRecorded id input decision_id gate_id clock).at _ st' d
      (reachable-WellFormed before) h
decided-IsRecorded before id d st' (IsDecided.by_report g derive r ids clock h) =
    (report-IsRecorded g derive id r ids clock).at _ st' d (reachable-WellFormed before) h
