-- ===== src/Control/History/Turns.antt =====
-- What the operations on a durable interaction leave alone of its session.
use hydra_mind.Prelude.{ℕ, ℤ, String, ◌≡◌, Bool, Option, List, ok, arith}
use hydra_mind.Kernel.Contracts.{MessageRole, TurnStatus, InteractionStatus}
use hydra_mind.Mas.Votes.{VoteOutcome, CoordinatorOutcome}
use hydra_mind.Control.Models.{RuntimeSession}
use hydra_mind.Control.Interactions.{DurableInteraction}
use hydra_mind.Control.History.Frames.{IsFramed}
use hydra_mind.Control.TurnLease.{
  grant_durable_turn_lease, heartbeat_durable_turn_lease, release_durable_turn_lease,
  recover_expired_durable_turn_leases,
}
use hydra_mind.Control.Durable.{
  written, start_durable_interaction, record_durable_turn, record_durable_message,
  record_durable_outcome, mark_durable_interaction_resumed, complete_durable_interaction,
}

module _ (s : RuntimeSession) where
  pub grant_turn-IsFramed :
      (id : String) (index : ℕ) (agent_id owner : String) (ttl : ℤ) (token : Option String)
      (fresh : String) (now : ℕ) (r : RuntimeSession × DurableInteraction)
      → grant_durable_turn_lease s id index agent_id owner ttl token fresh now ≡ ok r
      → IsFramed s r.0
  unfolding grant_durable_turn_lease
  grant_turn-IsFramed id index agent_id owner ttl token fresh now r h = ground arith

  pub heartbeat_turn-IsFramed :
      (id : String) (index : ℕ) (token : String) (ttl : ℤ) (now : ℕ)
      (r : RuntimeSession × DurableInteraction)
      → heartbeat_durable_turn_lease s id index token ttl now ≡ ok r
      → IsFramed s r.0
  unfolding heartbeat_durable_turn_lease
  heartbeat_turn-IsFramed id index token ttl now r h = ground arith

  pub release_turn-IsFramed :
      (id : String) (index : ℕ) (token : String) (completed : Bool) (now : ℕ)
      (r : RuntimeSession × DurableInteraction)
      → release_durable_turn_lease s id index token completed now ≡ ok r
      → IsFramed s r.0
  unfolding release_durable_turn_lease
  release_turn-IsFramed id index token completed now r h = ground arith

  pub recover_turns-IsFramed : (now : ℕ) → IsFramed s (recover_expired_durable_turn_leases s now).0
  unfolding recover_expired_durable_turn_leases
  recover_turns-IsFramed now = ground arith

  pub written-IsFramed :
      (id : String) (i : DurableInteraction) (u : Option DurableInteraction) (now : ℕ)
      → IsFramed s (written s id i u now).0
  written-IsFramed id i u now = ground arith

  pub start-IsFramed :
      (id node_key execution_id team_id mode topology : String) (members : List String)
      (workspace : Option String) (now : ℕ)
      → IsFramed s
          (start_durable_interaction s id node_key execution_id team_id mode topology members
            workspace now).0
  unfolding start_durable_interaction
  start-IsFramed id node_key execution_id team_id mode topology members workspace now = ground arith

  pub record_turn-IsFramed :
      (id : String) (index : ℕ) (agent_id : String) (status : TurnStatus) (now : ℕ)
      (r : RuntimeSession × DurableInteraction)
      → record_durable_turn s id index agent_id status now ≡ ok r
      → IsFramed s r.0
  unfolding record_durable_turn
  record_turn-IsFramed id index agent_id status now r h = ground arith

  pub record_message-IsFramed :
      (id : String) (index : ℕ) (sender content : String) (role : MessageRole)
      (in_reply_to : Option String) (now : ℕ) (r : RuntimeSession × DurableInteraction)
      → record_durable_message s id index sender content role in_reply_to now ≡ ok r
      → IsFramed s r.0
  unfolding record_durable_message
  record_message-IsFramed id index sender content role in_reply_to now r h = ground arith

  pub record_outcome-IsFramed :
      (id : String) (vote : Option VoteOutcome) (decided : Option CoordinatorOutcome) (now : ℕ)
      (r : RuntimeSession × DurableInteraction)
      → record_durable_outcome s id vote decided now ≡ ok r
      → IsFramed s r.0
  unfolding record_durable_outcome
  record_outcome-IsFramed id vote decided now r h = ground arith

  pub resumed-IsFramed :
      (id : String) (index : ℤ) (now : ℕ) (r : RuntimeSession × DurableInteraction)
      → mark_durable_interaction_resumed s id index now ≡ ok r
      → IsFramed s r.0
  unfolding mark_durable_interaction_resumed
  resumed-IsFramed id index now r h = ground arith

  pub complete-IsFramed :
      (id : String) (status : InteractionStatus) (error : Option String) (now : ℕ)
      (r : RuntimeSession × DurableInteraction)
      → complete_durable_interaction s id status error now ≡ ok r
      → IsFramed s r.0
  unfolding complete_durable_interaction
  complete-IsFramed id status error now r h = ground arith
