-- ===== src/Control/History/Frames.antt =====
-- What the operations on a fetched session leave alone: its id, its ledger, its repair count and,
-- but for the session transitions, its status.
use hydra_mind.Prelude.{ℕ, ℤ, String, ◌≡◌, refl, Option, List, ok, arith, ◌∙◌}
use hydra_mind.Control.Models.{
  RuntimeSession, NodeAttempt, WorkflowNodeSpec, WorkflowRevision, GateDecisionInput,
}
use hydra_mind.Control.Store.Extension.{Kept, stay}
use hydra_mind.Control.Execution.{
  grant_execution_lease, heartbeat_execution_lease, release_execution_lease,
}
use hydra_mind.Control.NodeLifecycle.{RecoveredNodeExecution, recover_expired_node_execution_leases}
use hydra_mind.Control.Gates.{GateDecisionResult, apply_gate_decision}
use hydra_mind.Control.Lifecycle.{add_workflow_nodes}
use hydra_mind.Control.Workflow.{WorkflowRevisionSummary, apply_workflow_revision}

pub record IsFramed (s t : RuntimeSession) : Type 0 where
  pub same_id : t.id ≡ s.id
  pub same_status : t.status ≡ s.status
  pub same_ledger : t.processed_idempotency_keys ≡ s.processed_idempotency_keys
  pub same_repairs : t.auto_repair_attempts_used ≡ s.auto_repair_attempts_used

pub framed-Kept : {s t : RuntimeSession} → IsFramed s t → Kept s t
framed-Kept {s} f = record {
  same_id = f.same_id;
  statuses = rw f.same_status stay;
  ledger = λ key r h. rw f.same_ledger h;
  repairs = omega (arith, f.same_repairs);
}

module _ (s : RuntimeSession) where
  pub grant-IsFramed :
      (key id owner : String) (ttl : ℤ) (token : Option String) (fresh : String) (now : ℕ)
      (r : RuntimeSession × NodeAttempt)
      → grant_execution_lease s key id owner ttl token fresh now ≡ ok r
      → IsFramed s r.0
  unfolding grant_execution_lease
  grant-IsFramed key id owner ttl token fresh now r h = ground arith

  pub heartbeat-IsFramed :
      (id token : String) (ttl : ℤ) (now : ℕ) (r : RuntimeSession × NodeAttempt)
      → heartbeat_execution_lease s id token ttl now ≡ ok r
      → IsFramed s r.0
  unfolding heartbeat_execution_lease
  heartbeat-IsFramed id token ttl now r h = ground arith

  pub release-IsFramed :
      (id token : String) (now : ℕ) (r : RuntimeSession × NodeAttempt × Option String)
      → release_execution_lease s id token now ≡ ok r
      → IsFramed s r.0
  unfolding release_execution_lease
  release-IsFramed id token now r h = ground arith

  pub recover-IsFramed :
      (now : ℕ) (r : RuntimeSession × List RecoveredNodeExecution)
      → recover_expired_node_execution_leases s now ≡ ok r
      → IsFramed s r.0
  unfolding recover_expired_node_execution_leases
  recover-IsFramed now r h = ground arith

  pub decision-IsFramed :
      (input : GateDecisionInput) (id : String) (now : ℕ) (r : RuntimeSession × GateDecisionResult)
      → apply_gate_decision s input id now ≡ ok r
      → IsFramed s r.0
  unfolding apply_gate_decision
  decision-IsFramed input id now r h = ground arith

  pub add_nodes-IsFramed :
      (nodes : List WorkflowNodeSpec) (now : ℕ) (t : RuntimeSession)
      → add_workflow_nodes s nodes now ≡ ok t
      → IsFramed s t
  unfolding add_workflow_nodes
  add_nodes-IsFramed nodes now t h = ground arith

  pub revision-IsFramed :
      (revision : WorkflowRevision) (now : ℕ) (at : String)
      (r : RuntimeSession × WorkflowRevisionSummary)
      → apply_workflow_revision s revision now at ≡ ok r
      → IsFramed s r.0
  unfolding apply_workflow_revision
  revision-IsFramed revision now at r h = ground arith

pub stamped-IsFramed : (s : RuntimeSession) (now : ℕ) → IsFramed s (record s { updated_at = now })
stamped-IsFramed s now = record {
  same_id = refl;
  same_status = refl;
  same_ledger = refl;
  same_repairs = refl;
}

pub IsFramed-trans : {s t u : RuntimeSession} → IsFramed s t → IsFramed t u → IsFramed s u
IsFramed-trans f g = record {
  same_id = g.same_id ∙ f.same_id;
  same_status = g.same_status ∙ f.same_status;
  same_ledger = g.same_ledger ∙ f.same_ledger;
  same_repairs = g.same_repairs ∙ f.same_repairs;
}
