-- ===== src/Control/Service/Nodes.antt =====
-- `SessionService`: the status of a node, and its gates.
use hydra_mind.Prelude.{ℕ, String, Option, Result, node_not_found, or_raise}
use hydra_mind.Prelude.Exec.{◌>>=◌, pure, lift}
use hydra_mind.Prelude.Dict
use hydra_mind.Prelude.Dict.{Payload}
use hydra_mind.Control.States.{NodeStatus, GateOutcome}
use hydra_mind.Control.Models.{RuntimeSession, NodeState, Gate, GateDecisionInput, latest_gate}
use hydra_mind.Control.Store.{Action, put, get_session}
use hydra_mind.Control.NodeLifecycle.{
  node_transition, complete_running_attempt, fail_running_attempt, abort_and_requeue_node,
}
use hydra_mind.Control.Gates

-- `_require_node`
abbrev pub require_node : RuntimeSession → String → Result NodeState
require_node s node_key = or_raise (Dict.get s.nodes node_key) node_not_found

-- The node of the session that was fetched is written to in place.
abbrev pub with_node : RuntimeSession → String → NodeState → RuntimeSession
with_node s node_key n = record s { nodes = Dict.put s.nodes node_key n }

-- `_node_only_transition`, and `start_node`, which differs in its event
unfoldable pub node_only_transition : String → String → NodeStatus → ℕ → Action NodeState
node_only_transition session_id node_key to now = do
  s ← get_session session_id
  n ← lift (require_node s node_key)
  m ← lift (node_transition n to now)
  t ← put (with_node s node_key m)
  pure m

abbrev pub start_node : String → String → ℕ → Action NodeState
start_node session_id node_key = node_only_transition session_id node_key NodeStatus.running

abbrev pub mark_node_pending_gate : String → String → ℕ → Action NodeState
mark_node_pending_gate session_id node_key =
    node_only_transition session_id node_key NodeStatus.pending_gate

abbrev pub approve_node : String → String → ℕ → Action NodeState
approve_node session_id node_key = node_only_transition session_id node_key NodeStatus.approved

abbrev pub mark_node_needs_revision : String → String → ℕ → Action NodeState
mark_node_needs_revision session_id node_key =
    node_only_transition session_id node_key NodeStatus.needs_revision

unfoldable pub complete_node : String → String → Option Payload → ℕ → Action NodeState
complete_node session_id node_key output now = do
  s ← get_session session_id
  n ← lift (require_node s node_key)
  m ← lift (node_transition n NodeStatus.completed now)
  ended ← lift (complete_running_attempt m output now)
  t ← put (with_node s node_key ended.0)
  pure ended.0

unfoldable pub fail_node : String → String → String → ℕ → Action NodeState
fail_node session_id node_key error now = do
  s ← get_session session_id
  n ← lift (require_node s node_key)
  m ← lift (node_transition n NodeStatus.failed now)
  ended ← lift (fail_running_attempt m error now)
  t ← put (with_node s node_key ended.0)
  pure ended.0

unfoldable pub requeue_node_for_retry : String → String → String → ℕ → Action NodeState
requeue_node_for_retry session_id node_key reason now = do
  s ← get_session session_id
  n ← lift (require_node s node_key)
  back ← lift (abort_and_requeue_node n reason now)
  t ← put (record (with_node s node_key back.0) { updated_at = now })
  pure back.0

abbrev pub revise_back_to_queued : String → String → ℕ → Action NodeState
revise_back_to_queued session_id node_key =
    requeue_node_for_retry session_id node_key "revision requested"

unfoldable pub record_gate :
    String → String → String → String → GateOutcome → Payload → ℕ → Action Gate
record_gate session_id node_key id name outcome detail now = do
  s ← get_session session_id
  n ← lift (require_node s node_key)
  let recorded = Gates.record_gate n id node_key name outcome detail now
  t ← put (with_node s node_key recorded.0)
  pure recorded.1

unfoldable pub apply_gate_decision : String → GateDecisionInput → String → ℕ → Action Gate
apply_gate_decision session_id input id now = do
  s ← get_session session_id
  r ← lift (Gates.apply_gate_decision s input id now)
  t ← put r.0
  pure r.1.gate

unfoldable pub get_node : String → String → Action NodeState
get_node session_id node_key = do s ← get_session session_id; lift (require_node s node_key)

unfoldable pub get_latest_gate : String → String → Action (Option Gate)
unfolding get_node
get_latest_gate session_id node_key = do n ← get_node session_id node_key; pure (latest_gate n)
