-- ===== src/Control/NodeLifecycle/Ends.antt =====
-- How a running attempt ends, and when a node can go back to the queue.
use hydra_mind.Prelude.{
  ℕ, String, ◌≡◌, refl, Bool, true, false, Option, none, some, List, [], ◌∷◌, arith, modify_last,
  last?, ap, ◌⊎◌,
}
use hydra_mind.Control.States.{NodeStatus, AttemptStatus, is_running_attempt}
use hydra_mind.Control.Models.{NodeAttempt, NodeState, latest_attempt}
use hydra_mind.Control.Execution.{clear_execution_lease}
use hydra_mind.Control.NodeLifecycle.{running_attempt}

pub last?-modify_last {ℓ} :
    {A : Type ℓ} (b : A) (xs : List A) {a : A}
    → last? xs ≡ some a
    → last? (modify_last (λ _. b) xs) ≡ some b
last?-modify_last b [] h = cc
last?-modify_last b (x ∷ []) h = refl
last?-modify_last b (x ∷ y ∷ []) h = refl
last?-modify_last b (x ∷ y ∷ z ∷ xs) h = last?-modify_last b (y ∷ z ∷ xs) h

-- All but the last.
abbrev pub drop_last {ℓ} : {A : Type ℓ} → List A → List A
drop_last [] = []
drop_last (x ∷ []) = []
drop_last (x ∷ y ∷ xs) = x ∷ drop_last (y ∷ xs)

pub drop_last-modify_last {ℓ} :
    {A : Type ℓ} (f : A → A) (xs : List A) → drop_last (modify_last f xs) ≡ drop_last xs
drop_last-modify_last f [] = refl
drop_last-modify_last f (x ∷ []) = refl
drop_last-modify_last f (x ∷ y ∷ []) = refl
drop_last-modify_last f (x ∷ y ∷ z ∷ xs) = ap (λ l. x ∷ l) (drop_last-modify_last f (y ∷ z ∷ xs))

pub running_attempt-latest :
    (n : NodeState) {a : NodeAttempt}
    → running_attempt n ≡ some a
    → (latest_attempt n ≡ some a) × (a.status ≡ AttemptStatus.running)
running_attempt-latest n h = ground arith

-- The three statuses that end an attempt.
abbrev pub is_end : AttemptStatus → Bool
is_end AttemptStatus.running = false
is_end _ = true

-- The node after the end of its running attempt.
abbrev pub with_ended :
    NodeState → NodeAttempt → AttemptStatus → (NodeAttempt → NodeAttempt) → ℕ → NodeState
with_ended n a to f now = record n {
  attempts =
      modify_last
        (λ _.
          clear_execution_lease (record (f (record a { status = to })) { finished_at = some now }))
        n.attempts;
}

-- What ending its latest attempt, which ran, with the status `to` and the error `reason` makes of a node:
-- that attempt has ended at `now`, without a lease, and the ones before it are as they were.
pub record IsEnded (n m : NodeState) (a : NodeAttempt) (to : AttemptStatus) (reason : String)
    (now : ℕ) : Type 0 where
  pub latest :
      latest_attempt m
      ≡ some (record a {
        status = to;
        error = some reason;
        finished_at = some now;
        lease_token = none;
        lease_owner = none;
        last_heartbeat_at = none;
        lease_expires_at = none;
      })
  pub earlier : drop_last m.attempts ≡ drop_last n.attempts

-- What aborting does, whether or not the latest attempt runs.
abbrev pub IsAborted : NodeState → NodeState → Option NodeAttempt → String → ℕ → Type 0
IsAborted n m o reason now =
    ((running_attempt n ≡ none) × (o ≡ none) × (m.attempts ≡ n.attempts))
    ⊎ ((a : NodeAttempt) × (running_attempt n ≡ some a)
        × (o ≡ latest_attempt m)
        × IsEnded n m a AttemptStatus.aborted reason now)

-- A latest attempt that has been moved out of `running` is no running attempt.
pub running_attempt-modify_last :
    (n : NodeState) (b : NodeAttempt) {a : NodeAttempt}
    → running_attempt n ≡ some a
    → is_running_attempt b.status ≡ false
    → running_attempt (record n { attempts = modify_last (λ _. b) n.attempts }) ≡ none
running_attempt-modify_last n b e ended =
    rw (last?-modify_last b n.attempts (running_attempt-latest n e).0, running_attempt) (rw ended)

-- The statuses from which a node can go back to the queue.
abbrev pub can_requeue : NodeStatus → Bool
can_requeue NodeStatus.approved = false
can_requeue NodeStatus.completed = false
can_requeue NodeStatus.failed = false
can_requeue _ = true
