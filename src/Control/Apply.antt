-- ===== src/Control/Apply.antt =====
-- control/control_apply.py and control/control_gate_decisions.py: an intent is carried out by calls of
-- the session service, and a decision on a gate is turned into one. `clock i` is the time of the
-- call of number `i`; the id of a gate or a decision that is recorded is an argument. The actor of a
-- requeue goes into an event only, and is left out.
use Prim.Native.String.{◌++◌ as str_append}
use hydra_mind.Prelude.{
  ℕ, ◌+◌, String, Option, none, some, [], ◌∷◌, Result, err, value_error, runtime_error, or_raise,
  str_eq, if◌then◌else◌, Json, Fields, end, field, str, obj,
}
use hydra_mind.Prelude.Exec.{◌>>=◌, pure, lift}
use hydra_mind.Prelude.Dict
use hydra_mind.Prelude.Dict.{Payload}
use hydra_mind.Control.States.{NodeStatus, SessionStatus, DecisionAction, ApplyIntentKind}
use hydra_mind.Control.Models.{Gate, GateDecisionInput, RuntimeSession}
use hydra_mind.Control.Intents.{
  AgentReport, ApplyIntent, RuntimeDecision, RuntimeDecisionKind, complete_intent, fail_intent,
  requeue_intent,
}
use hydra_mind.Control.Store.{Action, get_session}
use hydra_mind.Control.Service.Sessions.{
  fail_session, mark_session_resuming, mark_session_running, mark_session_waiting_gate,
  apply_workflow_revision,
}
use hydra_mind.Control.Service.Nodes.{
  record_gate, mark_node_pending_gate, get_node, fail_node, requeue_node_for_retry, complete_node,
  apply_gate_decision,
}
use hydra_mind.Control.Service.Executions.{release_execution_lease}

abbrev kind_value : ApplyIntentKind → String
kind_value ApplyIntentKind.complete = "complete"
kind_value ApplyIntentKind.pause = "pause"
kind_value ApplyIntentKind.fail = "fail"
kind_value ApplyIntentKind.requeue = "requeue"
kind_value ApplyIntentKind.workflow_revision = "workflow_revision"

-- dict(payload), as JSON
unfoldable pub fields_of : Payload → Fields
fields_of [] = end
fields_of ((k, j) ∷ p) = field k j (fields_of p)

-- `if intent.metadata: evidence["metadata"] = ...`
abbrev metadata_evidence : Payload → Fields
metadata_evidence [] = end
metadata_evidence (x ∷ p) = field "metadata" (obj (fields_of (x ∷ p))) end

-- `_intent_evidence`
unfoldable pub intent_evidence : ApplyIntent → Json
unfolding fields_of
intent_evidence i =
    let rest = metadata_evidence i.metadata in
    obj (
      field "kind" (str (kind_value i.kind)) (
        field "authorization" (obj (fields_of i.authorization))
          (if str_eq i.reason "" then rest else field "reason" (str i.reason) rest)))

-- `report.execution_id if report is not None else None`
abbrev reported_execution : Option AgentReport → Option String
reported_execution none = none
reported_execution (some r) = r.execution_id

-- A decision without a gate and an error, as `RuntimeDecision(...)` makes it.
abbrev pub decision :
    RuntimeDecisionKind
    → String
    → String
    → NodeStatus
    → Option Gate
    → Option AgentReport
    → RuntimeDecision
decision kind session_id node_key status gate report = record {
  kind = kind;
  session_id = session_id;
  node_key = node_key;
  node_status = status;
  gate = gate;
  error = none;
  execution_id = reported_execution report;
}

-- `_release_report_execution_lease_if_present`, for the fields of the report
unfoldable pub release_leased : String → Option String → Option String → ℕ → Action (Unit {0})
unfolding release_execution_lease
release_leased session_id (some execution_id) (some token) now = do
  a ← release_execution_lease session_id execution_id token now
  pure tt
release_leased session_id _ _ now = pure tt

-- `if report is not None: ...`
unfoldable pub release_report_lease : String → Option AgentReport → ℕ → Action (Unit {0})
unfolding release_leased
release_report_lease session_id none now = pure tt
release_report_lease session_id (some r) now =
    release_leased session_id r.execution_id r.lease_token now

abbrev pub resume_from : String → ℕ → SessionStatus → Action (Unit {0})
resume_from session_id now SessionStatus.waiting_gate = do
  t ← mark_session_resuming session_id now
  pure tt
resume_from session_id now _ = pure tt

-- `_resume_session_if_waiting`
unfoldable pub resume_session_if_waiting : String → ℕ → Action (Unit {0})
resume_session_if_waiting session_id now = do
  s ← get_session session_id
  resume_from session_id now s.status

abbrev pub run_from : String → ℕ → SessionStatus → Action (Unit {0})
run_from session_id now SessionStatus.resuming = do t ← mark_session_running session_id now; pure tt
run_from session_id now _ = pure tt

-- `_ensure_session_running`
unfoldable pub ensure_session_running : String → ℕ → Action (Unit {0})
ensure_session_running session_id now = do
  s ← get_session session_id
  run_from session_id now s.status

-- The `PAUSE` branch.
unfoldable pub apply_pause :
    String → String → ApplyIntent → Option AgentReport → String → (ℕ → ℕ) → Action RuntimeDecision
unfolding intent_evidence record_gate release_report_lease
apply_pause session_id node_key i report gate_id clock = do
  g ← lift (or_raise i.gate value_error)
  recorded ←
      record_gate session_id node_key gate_id g.name g.outcome
        (Dict.put g.detail "_apply_intent" (intent_evidence i)) (clock 0)
  released ← release_report_lease session_id report (clock 1)
  n ← mark_node_pending_gate session_id node_key (clock 2)
  s ← mark_session_waiting_gate session_id (clock 3)
  pure (
      decision RuntimeDecisionKind.await_gate session_id node_key NodeStatus.pending_gate
        (some recorded) report)

-- `intent.error or "..."`
abbrev pub error_or : Option String → String → String
error_or none text = text
error_or (some e) text = if str_eq e "" then text else e

-- `if node.status is not NodeStatus.FAILED: await fail_node(...)`
abbrev pub fail_unless_failed : String → String → String → ℕ → NodeStatus → Action (Unit {0})
fail_unless_failed session_id node_key error now NodeStatus.failed = pure tt
fail_unless_failed session_id node_key error now _ = do
  n ← fail_node session_id node_key error now
  pure tt

-- The `FAIL` branch.
unfoldable pub apply_fail :
    String → String → ApplyIntent → Option AgentReport → (ℕ → ℕ) → Action RuntimeDecision
unfolding get_node fail_node fail_session
apply_fail session_id node_key i report clock = do
  n ← get_node session_id node_key
  let error = error_or i.error "control-plane fail intent"
  failed ← fail_unless_failed session_id node_key error (clock 0) n.status
  s ← fail_session session_id error (clock 1)
  pure
      (record (decision RuntimeDecisionKind.fail session_id node_key NodeStatus.failed i.gate
        report) { error = some error })

-- The `REQUEUE` branch.
unfoldable pub apply_requeue :
    String → String → ApplyIntent → Option AgentReport → (ℕ → ℕ) → Action RuntimeDecision
unfolding resume_session_if_waiting requeue_node_for_retry ensure_session_running
apply_requeue session_id node_key i report clock = do
  resumed ← resume_session_if_waiting session_id (clock 0)
  n ←
      requeue_node_for_retry session_id node_key
        (if str_eq i.reason "" then "control-plane requeue intent" else i.reason) (clock 1)
  running ← ensure_session_running session_id (clock 2)
  pure (decision RuntimeDecisionKind.continue session_id node_key NodeStatus.queued i.gate report)

-- The `COMPLETE` branch.
unfoldable pub apply_complete :
    String → String → ApplyIntent → Option AgentReport → (ℕ → ℕ) → Action RuntimeDecision
unfolding resume_session_if_waiting complete_node ensure_session_running
apply_complete session_id node_key i report clock = do
  resumed ← resume_session_if_waiting session_id (clock 0)
  n ← complete_node session_id node_key (some i.output) (clock 1)
  running ← ensure_session_running session_id (clock 2)
  pure
      (decision RuntimeDecisionKind.continue session_id node_key NodeStatus.completed i.gate report)

-- The branches on `intent.kind`, once `_required_node_key` has a key.
unfoldable pub apply_kind :
    ApplyIntentKind
    → String
    → String
    → ApplyIntent
    → Option AgentReport
    → String
    → (ℕ → ℕ)
    → Action RuntimeDecision
unfolding apply_pause apply_fail apply_requeue apply_complete
apply_kind ApplyIntentKind.pause session_id node_key i report gate_id clock =
    apply_pause session_id node_key i report gate_id clock
apply_kind ApplyIntentKind.fail session_id node_key i report gate_id clock =
    apply_fail session_id node_key i report clock
apply_kind ApplyIntentKind.requeue session_id node_key i report gate_id clock =
    apply_requeue session_id node_key i report clock
apply_kind ApplyIntentKind.complete session_id node_key i report gate_id clock =
    apply_complete session_id node_key i report clock
apply_kind ApplyIntentKind.workflow_revision session_id node_key i report gate_id clock =
    lift (err value_error)

abbrev required_node_key : ApplyIntent → Result String
required_node_key i = or_raise i.node_key value_error

-- A workflow revision is refused before its node key is looked at, with the same exception.
unfoldable pub apply_node_intent :
    String → ApplyIntent → Option AgentReport → String → (ℕ → ℕ) → Action RuntimeDecision
unfolding apply_kind
apply_node_intent session_id i report gate_id clock = do
  node_key ← lift (required_node_key i)
  apply_kind i.kind session_id node_key i report gate_id clock

abbrev revision_of : ApplyIntent → Action (Unit {0})
revision_of i = elim i.kind [
  | ApplyIntentKind.workflow_revision ↦ pure tt
  | _ ↦ lift (err value_error)
]

unfoldable pub apply_workflow_revision_intent :
    String → ApplyIntent → ℕ → String → Action RuntimeSession
unfolding apply_workflow_revision
apply_workflow_revision_intent session_id i now applied_at = do
  checked ← revision_of i
  revision ← lift (or_raise i.workflow_revision value_error)
  apply_workflow_revision session_id revision now applied_at

abbrev with_node_key : String → ApplyIntent → ApplyIntent
with_node_key default i = elim i.node_key [
  | some key ↦ i
  | none ↦ elim i.kind [
    | ApplyIntentKind.workflow_revision ↦ i
    | _ ↦ record i { node_key = some default }
  ]
]

abbrev with_gate : Option Gate → ApplyIntent → ApplyIntent
with_gate gate i = elim i.gate [ some g ↦ i | none ↦ record i { gate = gate } ]

abbrev with_authorization : Payload → ApplyIntent → ApplyIntent
with_authorization authorization i = elim i.authorization [
  | [] ↦ record i { authorization = authorization }
  | x ∷ p ↦ i
]

-- `coerce_apply_intent`; that the deriver returns an intent is its type here
unfoldable pub coerce_apply_intent : ApplyIntent → String → Option Gate → Payload → ApplyIntent
coerce_apply_intent i default_node_key gate authorization =
    with_authorization authorization (with_gate gate (with_node_key default_node_key i))

unfoldable pub action_value : DecisionAction → String
action_value DecisionAction.approve = "approve"
action_value DecisionAction.revise = "revise"
action_value DecisionAction.replan = "replan"
action_value DecisionAction.reject = "reject"

-- `_gate_decision_authorization`
unfoldable pub gate_decision_authorization : Gate → GateDecisionInput → Payload
unfolding action_value
gate_decision_authorization g input =
    ("source", str "gate_decision")
    ∷ ("gate_id", str g.id)
    ∷ ("action", str (action_value input.action))
    ∷ []

-- f"gate {gate.name} requested {decision.action.value}"
abbrev revision_reason : Gate → GateDecisionInput → String
revision_reason g input =
    str_append "gate " (str_append g.name (str_append " requested " (action_value input.action)))

-- f"gate {gate.name} {ending}"
abbrev pub gate_text : Gate → String → String
gate_text g ending = str_append "gate " (str_append g.name (str_append " " ending))

-- `_intent_from_gate_status`
unfoldable pub intent_from_gate_status : Gate → NodeStatus → GateDecisionInput → Result ApplyIntent
unfolding action_value gate_decision_authorization complete_intent fail_intent requeue_intent
intent_from_gate_status g NodeStatus.needs_revision input =
    requeue_intent g.node_key (revision_reason g input) (some g)
      (gate_decision_authorization g input)
intent_from_gate_status g NodeStatus.approved input =
    complete_intent g.node_key [] (some g) (gate_decision_authorization g input)
intent_from_gate_status g NodeStatus.failed input =
    fail_intent g.node_key (gate_text g "rejected") (some g) (gate_decision_authorization g input)
intent_from_gate_status g _ input = err runtime_error

unfoldable pub apply_decision :
    String → GateDecisionInput → String → String → (ℕ → ℕ) → Action RuntimeDecision
unfolding apply_gate_decision get_node intent_from_gate_status apply_node_intent
apply_decision session_id input decision_id gate_id clock = do
  g ← apply_gate_decision session_id input decision_id (clock 0)
  n ← get_node session_id g.node_key
  i ← lift (intent_from_gate_status g n.status input)
  apply_node_intent session_id i none gate_id (λ k. clock (k + 1))
