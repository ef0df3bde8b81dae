-- ===== src/Control/Reports.antt =====
-- control/control_reports.py: what the control plane does with the report of an agent. The gate
-- evaluator and the apply deriver are callables that the application hands in: parameters here.
pub mod Refused
use Prim.Native.String.{◌++◌ as str_append}
use hydra_mind.Prelude.{
  ℕ, ◌+◌, suc, String, Bool, true, false, not, Option, none, some, List, [], ◌∷◌, ◌++◌, Result, ok,
  err, runtime_error, execution_lease, key_error, or_raise, guard, raise_if, str_eq, if◌then◌else◌,
  truthy, length, find_first, modify_first, modify_last, Json, null, str,
}
use hydra_mind.Prelude.Exec.{◌>>=◌, ◌>>◌, pure, lift}
use hydra_mind.Prelude.Dict
use hydra_mind.Prelude.Dict.{Payload}
use hydra_mind.Control.States.{
  NodeStatus, SessionStatus, AttemptStatus, GateOutcome, is_running_attempt,
}
use hydra_mind.Control.Models.{
  Gate, NodeAttempt, NodeState, RuntimeSession, latest_attempt, new_attempt,
}
use hydra_mind.Control.Intents.{
  AgentReport, ApplyIntent, RuntimeDecision, persisted_output, complete_intent, fail_intent,
  pause_intent,
}
use hydra_mind.Control.Store.{Action, put, get_session}
use hydra_mind.Control.Execution.{has_execution_lease_metadata}
use hydra_mind.Control.Service.Sessions.{mark_session_running}
use hydra_mind.Control.Service.Nodes.{start_node, require_node, with_node}
use hydra_mind.Control.Service.Executions.{start_attempt, assert_execution_lease}
use hydra_mind.Control.Apply.{apply_node_intent, coerce_apply_intent, gate_text}

abbrev has_attempt_id : String → NodeAttempt → Bool
has_attempt_id id a = str_eq a.id id

-- `_find_running_attempt`, as a test: is there one?
abbrev runs : Option NodeAttempt → Bool
runs none = false
runs (some a) = is_running_attempt a.status

-- The attempt takes the output and the error of the report.
unfoldable pub reported : AgentReport → NodeAttempt → NodeAttempt
unfolding persisted_output
reported r a = record a {
  output = Dict.merge a.output (persisted_output r);
  error = if truthy r.error then r.error else a.error;
}

-- The attempts once the one that the report is about took it in: the running one that
-- `_find_running_attempt` finds, or a new one at the end.
unfoldable pub report_attempts : NodeState → AgentReport → String → ℕ → List NodeAttempt
unfolding reported new_attempt
report_attempts n r fresh now =
    let a = new_attempt fresh r.node_key (suc (length n.attempts)) r.trace_id now in
    let added = n.attempts ++ reported r a ∷ [] in
    elim r.execution_id [
      | some id ↦
          if runs (find_first (has_attempt_id id) n.attempts)
          then modify_first (has_attempt_id id) (reported r) n.attempts
          else added
      | none ↦ if runs (latest_attempt n) then modify_last (reported r) n.attempts else added
    ]

unfoldable pub consume_agent_report : String → AgentReport → String → ℕ → Action (Unit {0})
unfolding report_attempts
consume_agent_report session_id r fresh now = do
  s ← get_session session_id
  n ← lift (require_node s r.node_key)
  t ← put (
      with_node s r.node_key
        (record n { attempts = report_attempts n r fresh now; updated_at = now }))
  pure tt

abbrev pub GateFn : Type 0
GateFn = RuntimeSession → NodeState → AgentReport → Result (Option Gate)

abbrev pub ApplyDeriver : Type 0
ApplyDeriver = RuntimeSession → NodeState → AgentReport → Result ApplyIntent

unfoldable pub default_apply_deriver : RuntimeSession → NodeState → AgentReport → Result ApplyIntent
unfolding complete_intent persisted_output
default_apply_deriver s n r =
    complete_intent n.key (persisted_output r) none (("source", str "default_apply_deriver") ∷ [])

-- `self._gate_fn(...) if self._gate_fn else None`
abbrev evaluate_gate : Option GateFn → GateFn
evaluate_gate none s n r = ok none
evaluate_gate (some f) s n r = f s n r

-- `apply_deriver or default_apply_deriver`
abbrev deriver_or_default : Option ApplyDeriver → ApplyDeriver
deriver_or_default none = default_apply_deriver
deriver_or_default (some f) = f

-- The session once it may take reports: a queued one is started, others than running and resuming
-- ones are refused.
abbrev pub accepting : String → ℕ → RuntimeSession → Action RuntimeSession
accepting session_id now s = elim s.status [
  | SessionStatus.running ↦ pure s
  | SessionStatus.resuming ↦ pure s
  | SessionStatus.queued ↦ (do
    started ← mark_session_running session_id now
    get_session session_id)
  | _ ↦ lift (err runtime_error)
]

-- The node of the report, which is started when it is queued.
abbrev pub executing : String → String → ℕ → NodeState → Action NodeState
executing session_id node_key now n = elim n.status [
  | NodeStatus.queued ↦ (do
    started ← start_node session_id node_key now
    s ← get_session session_id
    lift (or_raise (Dict.get s.nodes node_key) key_error))
  | _ ↦ pure n
]

-- report.execution_id != latest.id
abbrev pub is_execution : Option String → String → Bool
is_execution none id = false
is_execution (some e) id = str_eq e id

-- The two checks on the token of the report.
abbrev pub check_token : String → AgentReport → ℕ → NodeAttempt → Action (Unit {0})
check_token session_id r now a = do
  token ← lift (or_raise r.lease_token execution_lease)
  asserted ← assert_execution_lease session_id a.id token false now
  pure tt

-- The checks on an attempt that has a lease.
abbrev pub check_lease : String → AgentReport → ℕ → NodeAttempt → Action (Unit {0})
check_lease session_id r now a = do
  lift (guard (is_execution r.execution_id a.id) execution_lease)
  check_token session_id r now a

abbrev pub check_latest : String → AgentReport → ℕ → Option NodeAttempt → Action (Unit {0})
check_latest session_id r now none = pure tt
check_latest session_id r now (some a) =
    if has_execution_lease_metadata a then check_lease session_id r now a else pure tt

-- `_assert_report_execution_lease`
unfoldable pub assert_report_execution_lease :
    String → NodeState → AgentReport → ℕ → Action (Unit {0})
unfolding has_execution_lease_metadata assert_execution_lease
assert_report_execution_lease session_id n r now = check_latest session_id r now (latest_attempt n)

-- `latest is None or latest.status is not AttemptStatus.RUNNING`: an attempt is started.
abbrev pub start_unless_running : String → AgentReport → String → ℕ → NodeState → Action (Unit {0})
start_unless_running session_id r fresh now n =
    if runs (latest_attempt n)
    then pure tt
    else (do a ← start_attempt session_id r.node_key r.trace_id fresh now; pure tt)

abbrev outcome_value : GateOutcome → String
outcome_value GateOutcome.pass = "pass"
outcome_value GateOutcome.requires_decision = "requires_decision"
outcome_value GateOutcome.block = "block"

abbrev gate_authorization : Gate → Payload
gate_authorization g =
    ("source", str "gate_result")
    ∷ ("gate_name", str g.name)
    ∷ ("gate_outcome", str (outcome_value g.outcome))
    ∷ []

-- The authorization for an intent of the deriver that has none of its own.
abbrev derived_authorization : Option Gate → Payload
derived_authorization (some g) = gate_authorization g
derived_authorization none =
    ("source", str "control_apply_deriver") ∷ ("gate_name", null) ∷ ("gate_outcome", null) ∷ []

abbrev coerced : AgentReport → Option Gate → Result ApplyIntent → Result ApplyIntent
coerced r gate (err e) = err e
coerced r gate (ok raw) = ok (coerce_apply_intent raw r.node_key gate (derived_authorization gate))

-- The intent that the deriver gives.
abbrev derived_intent :
    ApplyDeriver → RuntimeSession → NodeState → AgentReport → Option Gate → Result ApplyIntent
derived_intent derive s n r gate = coerced r gate (derive s n r)

-- The intent that a report without an error comes to: a gate that asks for a decision pauses, one
-- that blocks fails, and otherwise the deriver decides.
unfoldable pub intent_for_gate :
    ApplyDeriver → RuntimeSession → NodeState → AgentReport → Option Gate → Result ApplyIntent
unfolding pause_intent fail_intent coerce_apply_intent
intent_for_gate derive s n r none = derived_intent derive s n r none
intent_for_gate derive s n r (some g) = elim g.outcome [
  | GateOutcome.requires_decision ↦ pause_intent r.node_key g (gate_authorization g)
  | GateOutcome.block ↦ fail_intent r.node_key (gate_text g "BLOCK") (some g) (gate_authorization g)
  | GateOutcome.pass ↦ derived_intent derive s n r (some g)
]

-- The ids that the source draws for one report.
pub record FreshIds : Type 0 where
  pub attempt_id : String
  pub report_attempt_id : String
  pub gate_id : String

-- `report.error`, where it is a text that is not empty
abbrev error_text : Option String → String
error_text none = ""
error_text (some e) = e

-- What follows on the checks, for a report with an error and one without.
unfoldable pub apply_report :
    Option GateFn
    → Option ApplyDeriver
    → String
    → AgentReport
    → FreshIds
    → (ℕ → ℕ)
    → NodeState
    → Action RuntimeDecision
unfolding apply_node_intent fail_intent start_attempt consume_agent_report intent_for_gate
apply_report gate_fn derive session_id r ids clock n =
    if truthy r.error
    then (do
      i ← lift (
          fail_intent r.node_key (error_text r.error) none
            (("source", str "agent_report_error") ∷ []))
      apply_node_intent session_id i (some r) ids.gate_id (λ k. clock (k + 3)))
    else (do
      started ← start_unless_running session_id r ids.attempt_id (clock 3) n
      consumed ← consume_agent_report session_id r ids.report_attempt_id (clock 4)
      s ← get_session session_id
      m ← lift (or_raise (Dict.get s.nodes r.node_key) key_error)
      gate ← lift (evaluate_gate gate_fn s m r)
      i ← lift (intent_for_gate (deriver_or_default derive) s m r gate)
      apply_node_intent session_id i (some r) ids.gate_id (λ k. clock (k + 5)))

unfoldable pub open_runtime_decision :
    Option GateFn
    → Option ApplyDeriver
    → String
    → AgentReport
    → FreshIds
    → (ℕ → ℕ)
    → Action RuntimeDecision
unfolding assert_report_execution_lease apply_report
open_runtime_decision gate_fn derive session_id r ids clock = do
  s ← get_session session_id
  ready ← accepting session_id (clock 0) s
  found ← lift (or_raise (Dict.get ready.nodes r.node_key) runtime_error)
  n ← executing session_id r.node_key (clock 1) found
  leased ← assert_report_execution_lease session_id n r (clock 2)
  apply_report gate_fn derive session_id r ids clock n
