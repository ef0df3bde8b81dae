-- ===== src/Control/Service/Executions.antt =====
-- `SessionService`: node attempts and their leases.
use hydra_mind.Prelude.{
  ℕ, suc, ℤ, String, Bool, Option, List, [], ◌∷◌, ◌++◌, map, length, execution_lease, or_raise,
}
use hydra_mind.Prelude.Exec.{◌>>=◌, pure, lift}
use hydra_mind.Control.Models.{RuntimeSession, NodeAttempt, new_attempt}
use hydra_mind.Control.Store.{Action, put, get_session}
use hydra_mind.Control.Execution
use hydra_mind.Control.Execution.{find_attempt_by_id}
use hydra_mind.Control.NodeLifecycle.{RecoveredNodeExecution, recover_expired_node_execution_leases}
use hydra_mind.Control.Service.Nodes.{require_node, with_node}

unfoldable pub start_attempt : String → String → Option String → String → ℕ → Action NodeAttempt
unfolding new_attempt
start_attempt session_id node_key trace_id id now = do
  s ← get_session session_id
  n ← lift (require_node s node_key)
  let a = new_attempt id node_key (suc (length n.attempts)) trace_id now
  t ← put (with_node s node_key (record n { attempts = n.attempts ++ a ∷ []; updated_at = now }))
  pure a

-- `start_node_execution` adds an event to `start_attempt`.
abbrev pub start_node_execution : String → String → Option String → String → ℕ → Action NodeAttempt
start_node_execution = start_attempt

abbrev attempts_of : List RecoveredNodeExecution → List NodeAttempt
attempts_of = map (λ r. r.attempt)

-- `if not recovered: return ()`
abbrev pub put_recovered :
    RuntimeSession × List RecoveredNodeExecution → ℕ → Action (List NodeAttempt)
put_recovered (s, []) now = pure []
put_recovered (s, r ∷ rs) now = do
  t ← put (record s { updated_at = now })
  pure (attempts_of (r ∷ rs))

unfoldable pub recover_expired_node_executions : String → ℕ → Action (List NodeAttempt)
recover_expired_node_executions session_id now = do
  s ← get_session session_id
  r ← lift (recover_expired_node_execution_leases s now)
  put_recovered r now

-- `if expires_at is None: raise ExecutionLeaseError`
abbrev with_expiry : NodeAttempt → Action NodeAttempt
with_expiry a = do e ← lift (or_raise a.lease_expires_at execution_lease); pure a

unfoldable pub grant_execution_lease :
    String → String → String → String → ℤ → Option String → String → ℕ → Action NodeAttempt
grant_execution_lease session_id node_key execution_id owner ttl_seconds lease_token fresh now = do
  s ← get_session session_id
  r ← lift (
      Execution.grant_execution_lease s node_key execution_id owner ttl_seconds lease_token fresh
        now)
  t ← put r.0
  with_expiry r.1

unfoldable pub assert_execution_lease : String → String → String → Bool → ℕ → Action NodeAttempt
assert_execution_lease session_id execution_id lease_token allow_expired now = do
  s ← get_session session_id
  found ← lift (find_attempt_by_id s execution_id)
  checked ← lift (Execution.assert_execution_lease found.0 lease_token now allow_expired)
  pure found.0

unfoldable pub heartbeat_execution_lease : String → String → String → ℤ → ℕ → Action NodeAttempt
heartbeat_execution_lease session_id execution_id lease_token ttl_seconds now = do
  s ← get_session session_id
  r ← lift (Execution.heartbeat_execution_lease s execution_id lease_token ttl_seconds now)
  t ← put r.0
  with_expiry r.1

unfoldable pub release_execution_lease : String → String → String → ℕ → Action NodeAttempt
release_execution_lease session_id execution_id lease_token now = do
  s ← get_session session_id
  r ← lift (Execution.release_execution_lease s execution_id lease_token now)
  t ← put r.0
  pure r.1
