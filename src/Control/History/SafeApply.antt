-- ===== src/Control/History/SafeApply.antt =====
-- What the control plane applies keeps what `Extension` says.
use hydra_mind.Prelude.{ℕ, String, false, Option, none, some}
use hydra_mind.Control.States.{NodeStatus, SessionStatus, ApplyIntentKind}
use hydra_mind.Control.Models.{
  GateDecisionInput, NodeAttempt, NodeState, latest_attempt, RuntimeSession,
}
use hydra_mind.Control.Intents.{AgentReport, ApplyIntent}
use hydra_mind.Control.Store.Rules.{
  IsSafe, IsSafe-bind, IsSafe-quiet, IsSafe-if, IsSafe-lift, IsQuiet, IsQuiet-pure, IsQuiet-lift,
  IsQuiet-bind, IsQuiet-get,
}
use hydra_mind.Control.Service.Nodes.{get_node}
use hydra_mind.Control.Service.Executions.{assert_execution_lease}
use hydra_mind.Control.Apply.{
  resume_from, run_from, fail_unless_failed, apply_pause, apply_fail, apply_requeue, apply_complete,
  apply_kind, apply_node_intent, apply_decision, release_leased, release_report_lease,
  resume_session_if_waiting, ensure_session_running,
}
use hydra_mind.Control.Reports.{
  accepting, executing, start_unless_running, check_latest, FreshIds, GateFn, ApplyDeriver,
  assert_report_execution_lease, apply_report, open_runtime_decision,
}
use hydra_mind.Control.History.Safe.{transition-IsSafe, fail-IsSafe}
use hydra_mind.Control.History.SafeNodes.{
  consume-IsSafe, node_transition-IsSafe, complete_node-IsSafe, fail_node-IsSafe, requeue-IsSafe,
  gate-IsSafe, decide-IsSafe, attempt-IsSafe, release-IsSafe,
}

ruleset steps = (
  IsSafe-bind, IsSafe-quiet, IsSafe-if, IsSafe-lift, IsQuiet-pure, IsQuiet-lift, IsQuiet-bind,
  IsQuiet-get, transition-IsSafe, fail-IsSafe, node_transition-IsSafe, complete_node-IsSafe,
  fail_node-IsSafe, requeue-IsSafe, gate-IsSafe, decide-IsSafe, attempt-IsSafe, release-IsSafe,
  consume-IsSafe,
)

pub get_node-IsSafe : (id key : String) → IsSafe (get_node id key)
unfolding get_node
get_node-IsSafe id key = search steps depth 8

release_leased-IsSafe :
    (id : String) (execution token : Option String) (now : ℕ)
    → IsSafe (release_leased id execution token now)
unfolding release_leased
release_leased-IsSafe id none token now = search steps depth 8
release_leased-IsSafe id (some e) none now = search steps depth 8
release_leased-IsSafe id (some e) (some t) now = search steps depth 8

pub release_report-IsSafe :
    (id : String) (r : Option AgentReport) (now : ℕ) → IsSafe (release_report_lease id r now)
unfolding release_report_lease
release_report-IsSafe id none now = search steps depth 8
release_report-IsSafe id (some r) now = release_leased-IsSafe id r.execution_id r.lease_token now

resume_from-IsSafe :
    (id : String) (now : ℕ) (status : SessionStatus) → IsSafe (resume_from id now status)
resume_from-IsSafe id now SessionStatus.waiting_gate = search steps depth 8
resume_from-IsSafe id now _ = search steps depth 8

run_from-IsSafe : (id : String) (now : ℕ) (status : SessionStatus) → IsSafe (run_from id now status)
run_from-IsSafe id now SessionStatus.resuming = search steps depth 8
run_from-IsSafe id now _ = search steps depth 8

pub fail_unless-IsSafe :
    (id key error : String) (now : ℕ) (status : NodeStatus)
    → IsSafe (fail_unless_failed id key error now status)
fail_unless-IsSafe id key error now NodeStatus.failed = search steps depth 8
fail_unless-IsSafe id key error now _ = search steps depth 8

pub resume-IsSafe : (id : String) (now : ℕ) → IsSafe (resume_session_if_waiting id now)
unfolding resume_session_if_waiting
resume-IsSafe id now =
    IsSafe-bind _ _ (IsSafe-quiet _ (IsQuiet-get id)) (λ s. resume_from-IsSafe id now s.status)

pub ensure-IsSafe : (id : String) (now : ℕ) → IsSafe (ensure_session_running id now)
unfolding ensure_session_running
ensure-IsSafe id now =
    IsSafe-bind _ _ (IsSafe-quiet _ (IsQuiet-get id)) (λ s. run_from-IsSafe id now s.status)

module _ (id key : String) (i : ApplyIntent) (r : Option AgentReport) (clock : ℕ → ℕ) where
  pause-IsSafe : (gate_id : String) → IsSafe (apply_pause id key i r gate_id clock)
  unfolding apply_pause
  pause-IsSafe gate_id = search (steps, release_report-IsSafe) depth 14

  fail_intent-IsSafe : IsSafe (apply_fail id key i r clock)
  unfolding apply_fail
  fail_intent-IsSafe = IsSafe-bind _ _ (get_node-IsSafe id key) (λ n.
      IsSafe-bind _ _ (fail_unless-IsSafe id key _ (clock 0) n.status)
        (λ done. search steps depth 8))

  requeue_intent-IsSafe : IsSafe (apply_requeue id key i r clock)
  unfolding apply_requeue
  requeue_intent-IsSafe = search (steps, resume-IsSafe, ensure-IsSafe) depth 14

  complete_intent-IsSafe : IsSafe (apply_complete id key i r clock)
  unfolding apply_complete
  complete_intent-IsSafe = search (steps, resume-IsSafe, ensure-IsSafe) depth 14

kind-IsSafe :
    (kind : ApplyIntentKind) (id key : String) (i : ApplyIntent) (r : Option AgentReport)
    (gate_id : String) (clock : ℕ → ℕ)
    → IsSafe (apply_kind kind id key i r gate_id clock)
unfolding apply_kind
kind-IsSafe ApplyIntentKind.pause id key i r gate_id clock = pause-IsSafe id key i r clock gate_id
kind-IsSafe ApplyIntentKind.fail id key i r gate_id clock = fail_intent-IsSafe id key i r clock
kind-IsSafe ApplyIntentKind.requeue id key i r gate_id clock =
    requeue_intent-IsSafe id key i r clock
kind-IsSafe ApplyIntentKind.complete id key i r gate_id clock =
    complete_intent-IsSafe id key i r clock
kind-IsSafe ApplyIntentKind.workflow_revision id key i r gate_id clock = search steps depth 8

pub intent-IsSafe :
    (id : String) (i : ApplyIntent) (r : Option AgentReport) (gate_id : String) (clock : ℕ → ℕ)
    → IsSafe (apply_node_intent id i r gate_id clock)
unfolding apply_node_intent
intent-IsSafe id i r gate_id clock =
    IsSafe-lift _ _ (λ key. kind-IsSafe i.kind id key i r gate_id clock)

pub decision-IsSafe :
    (id : String) (input : GateDecisionInput) (decision_id gate_id : String) (clock : ℕ → ℕ)
    → IsSafe (apply_decision id input decision_id gate_id clock)
unfolding apply_decision
decision-IsSafe id input decision_id gate_id clock =
    search (steps, get_node-IsSafe, intent-IsSafe) depth 12

pub accepting-IsSafe :
    (id : String) (now : ℕ) (s : RuntimeSession) (status : SessionStatus)
    → IsSafe (accepting id now (record s { status = status }))
accepting-IsSafe id now s SessionStatus.queued = search steps depth 8
accepting-IsSafe id now s _ = search steps depth 8

pub executing-IsSafe :
    (id key : String) (now : ℕ) (n : NodeState) (status : NodeStatus)
    → IsSafe (executing id key now (record n { status = status }))
executing-IsSafe id key now n NodeStatus.queued = search steps depth 8
executing-IsSafe id key now n _ = search steps depth 8

assert-IsQuiet :
    (id execution token : String) (now : ℕ)
    → IsQuiet (assert_execution_lease id execution token false now)
unfolding assert_execution_lease
assert-IsQuiet id execution token now = search steps depth 8

latest-IsSafe :
    (id : String) (r : AgentReport) (now : ℕ) (a : Option NodeAttempt)
    → IsSafe (check_latest id r now a)
latest-IsSafe id r now none = search steps depth 8
latest-IsSafe id r now (some a) = search (steps, assert-IsQuiet) depth 12

pub lease-IsSafe :
    (id : String) (n : NodeState) (r : AgentReport) (now : ℕ)
    → IsSafe (assert_report_execution_lease id n r now)
unfolding assert_report_execution_lease
lease-IsSafe id n r now = latest-IsSafe id r now (latest_attempt n)

pub started-IsSafe :
    (id : String) (r : AgentReport) (fresh : String) (now : ℕ) (n : NodeState)
    → IsSafe (start_unless_running id r fresh now n)
started-IsSafe id r fresh now n = search steps depth 8

report-IsSafe :
    (g : Option GateFn) (d : Option ApplyDeriver) (id : String) (r : AgentReport) (ids : FreshIds)
    (clock : ℕ → ℕ) (n : NodeState)
    → IsSafe (apply_report g d id r ids clock n)
unfolding apply_report
report-IsSafe g d id r ids clock n = search (steps, intent-IsSafe) depth 16

pub open_decision-IsSafe :
    (g : Option GateFn) (d : Option ApplyDeriver) (id : String) (r : AgentReport) (ids : FreshIds)
    (clock : ℕ → ℕ)
    → IsSafe (open_runtime_decision g d id r ids clock)
unfolding open_runtime_decision
open_decision-IsSafe g d id r ids clock = IsSafe-bind _ _ (IsSafe-quiet _ (IsQuiet-get id)) (λ s.
    IsSafe-bind _ _ (accepting-IsSafe id (clock 0) s s.status) (λ t. IsSafe-lift _ _ (λ m.
      IsSafe-bind _ _ (executing-IsSafe id r.node_key (clock 1) m m.status) (λ n.
        IsSafe-bind _ _ (lease-IsSafe id n r (clock 2))
          (λ checked. report-IsSafe g d id r ids clock n)))))
