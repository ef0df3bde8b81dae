-- ===== src/Control/NodeLifecycle.antt =====
-- control/session_node_lifecycle.py, and the two guarded transitions of `SessionService`.
pub mod Ends
pub mod Recovery
use hydra_mind.Prelude.{
  ℕ, String, Bool, true, false, not, ◌&&◌, Option, none, some, List, [], ◌∷◌, Result, ok, err,
  invalid_transition, ◌++◌, ◌>>=◌, ◌>>◌, guard, if◌then◌else◌, modify_last,
}
use hydra_mind.Prelude.Dict.{Dict, Payload}
use hydra_mind.Control.States.{
  NodeStatus, AttemptStatus, is_valid_node_transition, is_valid_attempt_transition,
  is_running_attempt,
}
use hydra_mind.Control.Models.{NodeAttempt, NodeState, RuntimeSession, latest_attempt}
use hydra_mind.Control.Execution.{
  is_execution_lease_live, has_execution_lease_metadata, clear_execution_lease,
}

-- `SessionService._node_transition`
unfoldable pub node_transition : NodeState → NodeStatus → ℕ → Result NodeState
unfolding is_valid_node_transition
node_transition n to now = do
  guard (is_valid_node_transition n.status to) invalid_transition
  ok (record n { status = to; updated_at = now })

-- `SessionService._attempt_transition`
unfoldable pub attempt_transition : NodeAttempt → AttemptStatus → Result NodeAttempt
unfolding is_valid_attempt_transition
attempt_transition a to = do
  guard (is_valid_attempt_transition a.status to) invalid_transition
  ok (record a { status = to })

abbrev is_running_node : NodeStatus → Bool
is_running_node NodeStatus.running = true
is_running_node _ = false

abbrev is_pending_gate : NodeStatus → Bool
is_pending_gate NodeStatus.pending_gate = true
is_pending_gate _ = false

abbrev is_queued_node : NodeStatus → Bool
is_queued_node NodeStatus.queued = true
is_queued_node _ = false

-- The latest attempt, if it is running.
abbrev pub running_attempt : NodeState → Option NodeAttempt
running_attempt n = elim (latest_attempt n) [
  | none ↦ none
  | some a ↦ if is_running_attempt a.status then some a else none
]

-- The running latest attempt is moved to `to`, changed by `f`, stamped and stripped of its lease.
-- The three ways to end an attempt share it.
unfoldable pub end_running_attempt :
    NodeState
    → AttemptStatus
    → (NodeAttempt → NodeAttempt)
    → ℕ
    → Result (NodeState × Option NodeAttempt)
unfolding attempt_transition clear_execution_lease
end_running_attempt n to f now = elim (running_attempt n) [
  | none ↦ ok (n, none)
  | some a ↦ (do
    moved ← attempt_transition a to
    let b = clear_execution_lease (record (f moved) { finished_at = some now })
    ok (record n { attempts = modify_last (λ _. b) n.attempts }, some b))
]

abbrev set_output : Option Payload → NodeAttempt → NodeAttempt
set_output none a = a
set_output (some output) a = record a { output = output }

unfoldable pub complete_running_attempt :
    NodeState → Option Payload → ℕ → Result (NodeState × Option NodeAttempt)
unfolding end_running_attempt
complete_running_attempt n output now =
    end_running_attempt n AttemptStatus.succeeded (set_output output) now

unfoldable pub fail_running_attempt :
    NodeState → String → ℕ → Result (NodeState × Option NodeAttempt)
unfolding end_running_attempt
fail_running_attempt n error now =
    end_running_attempt n AttemptStatus.failed (λ a. record a { error = some error }) now

unfoldable pub abort_running_attempt :
    NodeState → String → ℕ → Result (NodeState × Option NodeAttempt)
unfolding end_running_attempt
abort_running_attempt n reason now =
    end_running_attempt n AttemptStatus.aborted (λ a. record a { error = some reason }) now

-- `if node.status is PENDING_GATE: transition_node(node, NEEDS_REVISION)`
abbrev leave_gate : NodeState → ℕ → Result NodeState
leave_gate n now =
    if is_pending_gate n.status then node_transition n NodeStatus.needs_revision now else ok n

abbrev to_queued : NodeState → ℕ → Result NodeState
to_queued n now = if is_queued_node n.status then ok n else node_transition n NodeStatus.queued now

unfoldable pub abort_and_requeue_node :
    NodeState → String → ℕ → Result (NodeState × Option NodeAttempt)
abort_and_requeue_node n reason now = do
  aborted ← abort_running_attempt n reason now
  left ← leave_gate aborted.0 now
  back ← to_queued left now
  ok (record back { updated_at = now }, aborted.1)

pub record RecoveredNodeExecution : Type 0 where
  pub node_key : String
  pub attempt : NodeAttempt
  pub lease_owner : Option String
  pub lease_expires_at : Option ℕ

-- A running node whose latest attempt runs under a lease that is written and no longer live.
abbrev pub expired_attempt : NodeState → ℕ → Option NodeAttempt
expired_attempt n now = elim (running_attempt n) [
  | none ↦ none
  | some a ↦
      if is_running_node n.status
        && (has_execution_lease_metadata a && not (is_execution_lease_live a now))
      then some a
      else none
]

unfoldable pub recover_node : NodeState → ℕ → Result (NodeState × List RecoveredNodeExecution)
unfolding attempt_transition node_transition clear_execution_lease is_execution_lease_live
    has_execution_lease_metadata
recover_node n now = elim (expired_attempt n now) [
  | none ↦ ok (n, [])
  | some a ↦ (do
    moved ← attempt_transition a AttemptStatus.aborted
    let b =
        clear_execution_lease
          (record moved { error = some "execution lease expired"; finished_at = some now })
    back ←
        node_transition (record n { attempts = modify_last (λ _. b) n.attempts }) NodeStatus.queued
          now
    let r : RecoveredNodeExecution = record {
      node_key = n.key;
      attempt = b;
      lease_owner = a.lease_owner;
      lease_expires_at = a.lease_expires_at;
    }
    ok (back, r ∷ []))
]

unfoldable pub recover_nodes :
    Dict NodeState → ℕ → Result (Dict NodeState × List RecoveredNodeExecution)
recover_nodes [] now = ok ([], [])
recover_nodes ((k, n) ∷ d) now = do
  first ← recover_node n now
  rest ← recover_nodes d now
  ok ((k, first.0) ∷ rest.0, first.1 ++ rest.1)

unfoldable pub recover_expired_node_execution_leases :
    RuntimeSession → ℕ → Result (RuntimeSession × List RecoveredNodeExecution)
recover_expired_node_execution_leases s now = do
  r ← recover_nodes s.nodes now
  ok (record s { nodes = r.0 }, r.1)
