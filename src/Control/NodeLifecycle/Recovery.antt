-- ===== src/Control/NodeLifecycle/Recovery.antt =====
-- Recovery of node executions whose lease has expired.
use hydra_mind.Prelude.{ℕ, String, ◌≡◌, Bool, ◌⊎◌, none, some, [], ◌∷◌, err, execution_lease}
use hydra_mind.Prelude.Dict.{Dict}
use hydra_mind.Control.States.{NodeStatus, AttemptStatus}
use hydra_mind.Control.Models.{NodeAttempt, NodeState}
use hydra_mind.Control.Execution.{assert_execution_lease}
use hydra_mind.Control.NodeLifecycle.{RecoveredNodeExecution, running_attempt, expired_attempt}
use hydra_mind.Control.NodeLifecycle.Ends.{IsEnded}

abbrev aborted_of : NodeAttempt → ℕ → NodeAttempt
aborted_of a now = record a {
  status = AttemptStatus.aborted;
  error = some "execution lease expired";
  finished_at = some now;
  lease_token = none;
  lease_owner = none;
  last_heartbeat_at = none;
  lease_expires_at = none;
}

-- What recovery makes of a node.
abbrev pub Settled : ℕ → NodeState → NodeState → Type 0
Settled now n m =
    ((expired_attempt n now ≡ none) × (m ≡ n))
    ⊎ ((a : NodeAttempt) × (expired_attempt n now ≡ some a)
        × (m.status ≡ NodeStatus.queued)
        × (running_attempt m ≡ none)
        × IsEnded n m a AttemptStatus.aborted "execution lease expired" now
        × (m.gates ≡ n.gates))

-- No token passes on the recovered attempt, which is aborted.
abbrev pub Fenced : RecoveredNodeExecution → Type 0
Fenced r =
    (r.attempt.status ≡ AttemptStatus.aborted)
    × ((token : String) (at : ℕ) (allow_expired : Bool)
        → assert_execution_lease r.attempt token at allow_expired ≡ err execution_lease)

-- The same keys in the same order, each node settled.
abbrev pub AllSettled : ℕ → Dict NodeState → Dict NodeState → Type 0
AllSettled now [] [] = Unit
AllSettled now ((k, n) ∷ d) ((j, m) ∷ e) = (j ≡ k) × Settled now n m × AllSettled now d e
AllSettled now _ _ = ⊥
