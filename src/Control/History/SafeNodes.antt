-- ===== src/Control/History/SafeNodes.antt =====
-- The methods on nodes, attempts and gates keep what `Extension` says.
use hydra_mind.Prelude.{ℕ, ℤ, String, refl, Option, List, [], ◌∷◌}
use hydra_mind.Prelude.Dict.{Payload}
use hydra_mind.Control.States.{NodeStatus, GateOutcome}
use hydra_mind.Control.Models.{RuntimeSession, NodeState, GateDecisionInput}
use hydra_mind.Control.Intents.{AgentReport}
use hydra_mind.Control.Reports.{consume_agent_report}
use hydra_mind.Control.Store.Rules.{
  IsSafe, IsSafeFrom, safe_rules, IsQuiet-pure, IsSafeFrom-put, IsSafeFrom-lift, IsSafe-get,
}
use hydra_mind.Control.NodeLifecycle.{RecoveredNodeExecution}
use hydra_mind.Control.History.Frames.{
  IsFramed, framed-Kept, IsFramed-trans, stamped-IsFramed, grant-IsFramed, heartbeat-IsFramed,
  release-IsFramed, recover-IsFramed, decision-IsFramed,
}
use hydra_mind.Control.Service.Nodes.{
  with_node, node_only_transition, complete_node, fail_node, requeue_node_for_retry, record_gate,
  apply_gate_decision,
}
use hydra_mind.Control.Service.Executions.{
  start_attempt, recover_expired_node_executions, grant_execution_lease, heartbeat_execution_lease,
  release_execution_lease, put_recovered,
}

with_node-IsFramed :
    (s : RuntimeSession) (key : String) (n : NodeState) → IsFramed s (with_node s key n)
with_node-IsFramed s key n = record {
  same_id = refl;
  same_status = refl;
  same_ledger = refl;
  same_repairs = refl;
}

with_node_stamped-IsFramed :
    (s : RuntimeSession) (key : String) (n : NodeState) (now : ℕ)
    → IsFramed s (record (with_node s key n) { updated_at = now })
with_node_stamped-IsFramed s key n now = record {
  same_id = refl;
  same_status = refl;
  same_ledger = refl;
  same_repairs = refl;
}

ruleset frames = (with_node-IsFramed, stamped-IsFramed, with_node_stamped-IsFramed, framed-Kept)

pub node_transition-IsSafe :
    (id key : String) (to : NodeStatus) (now : ℕ) → IsSafe (node_only_transition id key to now)
unfolding node_only_transition
node_transition-IsSafe id key to now = search (safe_rules, frames) depth 12

pub complete_node-IsSafe :
    (id key : String) (output : Option Payload) (now : ℕ) → IsSafe (complete_node id key output now)
unfolding complete_node
complete_node-IsSafe id key output now = search (safe_rules, frames) depth 12

pub fail_node-IsSafe : (id key error : String) (now : ℕ) → IsSafe (fail_node id key error now)
unfolding fail_node
fail_node-IsSafe id key error now = search (safe_rules, frames) depth 12

pub requeue-IsSafe :
    (id key reason : String) (now : ℕ) → IsSafe (requeue_node_for_retry id key reason now)
unfolding requeue_node_for_retry
requeue-IsSafe id key reason now = search (safe_rules, frames) depth 12

pub gate-IsSafe :
    (id key gate_id name : String) (result : GateOutcome) (detail : Payload) (now : ℕ)
    → IsSafe (record_gate id key gate_id name result detail now)
unfolding record_gate
gate-IsSafe id key gate_id name result detail now = search (safe_rules, frames) depth 12

pub decide-IsSafe :
    (id : String) (input : GateDecisionInput) (decision_id : String) (now : ℕ)
    → IsSafe (apply_gate_decision id input decision_id now)
unfolding apply_gate_decision
decide-IsSafe id input decision_id now = search (safe_rules, frames, decision-IsFramed) depth 12

pub attempt-IsSafe :
    (id key : String) (trace_id : Option String) (attempt_id : String) (now : ℕ)
    → IsSafe (start_attempt id key trace_id attempt_id now)
unfolding start_attempt
attempt-IsSafe id key trace_id attempt_id now = search (safe_rules, frames) depth 12

pub consume-IsSafe :
    (id : String) (r : AgentReport) (fresh : String) (now : ℕ)
    → IsSafe (consume_agent_report id r fresh now)
unfolding consume_agent_report
consume-IsSafe id r fresh now = search (safe_rules, frames) depth 12

pub grant-IsSafe :
    (id key execution_id owner : String) (ttl : ℤ) (token : Option String) (fresh : String)
    (now : ℕ)
    → IsSafe (grant_execution_lease id key execution_id owner ttl token fresh now)
unfolding grant_execution_lease
grant-IsSafe id key execution_id owner ttl token fresh now =
    search (safe_rules, frames, grant-IsFramed) depth 12

pub heartbeat-IsSafe :
    (id execution_id token : String) (ttl : ℤ) (now : ℕ)
    → IsSafe (heartbeat_execution_lease id execution_id token ttl now)
unfolding heartbeat_execution_lease
heartbeat-IsSafe id execution_id token ttl now =
    search (safe_rules, frames, heartbeat-IsFramed) depth 12

pub release-IsSafe :
    (id execution_id token : String) (now : ℕ)
    → IsSafe (release_execution_lease id execution_id token now)
unfolding release_execution_lease
release-IsSafe id execution_id token now = search (safe_rules, frames, release-IsFramed) depth 12

put_recovered-IsSafeFrom :
    (s t : RuntimeSession) (rs : List RecoveredNodeExecution) (now : ℕ)
    → IsFramed s t
    → IsSafeFrom s (put_recovered (t, rs) now)
put_recovered-IsSafeFrom s t [] now f = search safe_rules
put_recovered-IsSafeFrom s t (r ∷ rs) now f =
    IsSafeFrom-put s _ _ (framed-Kept (IsFramed-trans f (stamped-IsFramed t now)))
      (λ u. IsQuiet-pure _)

pub recover-IsSafe : (id : String) (now : ℕ) → IsSafe (recover_expired_node_executions id now)
unfolding recover_expired_node_executions
recover-IsSafe id now = IsSafe-get id _ (λ s.
    IsSafeFrom-lift s _ _
      (λ r h. put_recovered-IsSafeFrom s r.0 r.1 now (recover-IsFramed s now r h)))
