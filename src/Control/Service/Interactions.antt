-- ===== src/Control/Service/Interactions.antt =====
-- `SessionService`: the durable interactions and the leases on their turns.
use Prim.Native.String.{◌++◌ as str_append}
use hydra_mind.Prelude.{
  ℕ, ℤ, String, Bool, Option, none, some, List, [], ◌∷◌, any, ◌&&◌, if◌then◌else◌,
}
use hydra_mind.Prelude.Exec.{◌>>=◌, pure, lift}
use hydra_mind.Prelude.Dict
use hydra_mind.Kernel.Contracts.{MessageRole, TurnStatus, InteractionStatus}
use hydra_mind.Mas.Votes.{VoteOutcome, CoordinatorOutcome}
use hydra_mind.Control.Interactions.{DurableInteraction}
use hydra_mind.Control.Models.{RuntimeSession}
use hydra_mind.Control.Store.{Action, put, get_session}
use hydra_mind.Control.Durable
use hydra_mind.Control.Durable.{same_interaction_status}
use hydra_mind.Control.TurnLease
use hydra_mind.Control.TurnLease.{RecoveredDurableTurn, is_completed}

-- Each of these methods puts the session, also where nothing has changed.
abbrev put_interaction : RuntimeSession × DurableInteraction → Action DurableInteraction
put_interaction r = do t ← put r.0; pure r.1

unfoldable pub start_interaction :
    String
    → String
    → String
    → String
    → String
    → String
    → String
    → List String
    → Option String
    → ℕ
    → Action DurableInteraction
start_interaction session_id interaction_id node_key execution_id team_id mode topology members
      workspace now =
    do
      s ← get_session session_id
      put_interaction (
          Durable.start_durable_interaction s interaction_id node_key execution_id team_id mode
            topology members workspace now)

unfoldable pub record_interaction_turn :
    String → String → ℕ → String → TurnStatus → ℕ → Action DurableInteraction
record_interaction_turn session_id interaction_id index agent_id status now = do
  s ← get_session session_id
  r ← lift (Durable.record_durable_turn s interaction_id index agent_id status now)
  put_interaction r

unfoldable pub record_interaction_message :
    String
    → String
    → ℕ
    → String
    → String
    → MessageRole
    → Option String
    → ℕ
    → Action DurableInteraction
record_interaction_message session_id interaction_id index sender content role in_reply_to now = do
  s ← get_session session_id
  r ←
      lift
        (Durable.record_durable_message s interaction_id index sender content role in_reply_to now)
  put_interaction r

unfoldable pub record_interaction_outcome :
    String → String → Option VoteOutcome → Option CoordinatorOutcome → ℕ → Action DurableInteraction
record_interaction_outcome session_id interaction_id vote coordinator now = do
  s ← get_session session_id
  r ← lift (Durable.record_durable_outcome s interaction_id vote coordinator now)
  put_interaction r

unfoldable pub complete_interaction :
    String → String → InteractionStatus → Option String → ℕ → Action DurableInteraction
complete_interaction session_id interaction_id status error now = do
  s ← get_session session_id
  r ← lift (Durable.complete_durable_interaction s interaction_id status error now)
  put_interaction r

abbrev pub fail_interaction : String → String → String → ℕ → Action DurableInteraction
fail_interaction session_id interaction_id error =
    complete_interaction session_id interaction_id InteractionStatus.failed (some error)

unfoldable pub mark_interaction_resumed : String → String → ℤ → ℕ → Action DurableInteraction
mark_interaction_resumed session_id interaction_id index now = do
  s ← get_session session_id
  r ← lift (Durable.mark_durable_interaction_resumed s interaction_id index now)
  put_interaction r

-- f"interaction-{session_id}-{node_key}"
unfoldable pub durable_interaction_id : String → String → String
durable_interaction_id session_id node_key =
    str_append "interaction-" (str_append session_id (str_append "-" node_key))

abbrev resumable : Option DurableInteraction → Option DurableInteraction
resumable none = none
resumable (some i) =
    if same_interaction_status i.status InteractionStatus.running
      && any (λ t. is_completed t.status) i.turns
    then some i
    else none

unfoldable pub find_resumable_interaction : String → String → Action (Option DurableInteraction)
unfolding durable_interaction_id
find_resumable_interaction session_id node_key = do
  s ← get_session session_id
  pure (resumable (Dict.get s.durable_interactions (durable_interaction_id session_id node_key)))

unfoldable pub grant_turn_lease :
    String
    → String
    → ℕ
    → String
    → String
    → ℤ
    → Option String
    → String
    → ℕ
    → Action DurableInteraction
grant_turn_lease session_id interaction_id index agent_id owner ttl_seconds lease_token fresh now =
    do
      s ← get_session session_id
      r ← lift (
          TurnLease.grant_durable_turn_lease s interaction_id index agent_id owner ttl_seconds
            lease_token fresh now)
      put_interaction r

unfoldable pub heartbeat_turn_lease :
    String → String → ℕ → String → ℤ → ℕ → Action DurableInteraction
heartbeat_turn_lease session_id interaction_id index lease_token ttl_seconds now = do
  s ← get_session session_id
  r ←
      lift
        (TurnLease.heartbeat_durable_turn_lease s interaction_id index lease_token ttl_seconds now)
  put_interaction r

unfoldable pub release_turn_lease :
    String → String → ℕ → String → Bool → ℕ → Action DurableInteraction
release_turn_lease session_id interaction_id index lease_token completed now = do
  s ← get_session session_id
  r ← lift (TurnLease.release_durable_turn_lease s interaction_id index lease_token completed now)
  put_interaction r

abbrev pub put_recovered :
    RuntimeSession × List RecoveredDurableTurn → ℕ → Action (List RecoveredDurableTurn)
put_recovered (s, []) now = pure []
put_recovered (s, r ∷ rs) now = do t ← put (record s { updated_at = now }); pure (r ∷ rs)

unfoldable pub recover_expired_turn_leases : String → ℕ → Action (List RecoveredDurableTurn)
recover_expired_turn_leases session_id now = do
  s ← get_session session_id
  put_recovered (TurnLease.recover_expired_durable_turn_leases s now) now
