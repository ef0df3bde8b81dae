-- ===== src/Control/Interactions.antt =====
-- control/interaction_state.py: the durable record of an interaction. Times are microseconds.
use hydra_mind.Prelude.{ℤ, ℕ, String, Option, List, find_first, str_eq, ◌==◌}
use hydra_mind.Kernel.Contracts.{MessageRole, TurnStatus, InteractionStatus}
use hydra_mind.Mas.Votes.{VoteOutcome, CoordinatorOutcome}

pub record DurableMessage : Type 0 where
  pub id : String
  pub interaction_id : String
  pub turn_index : ℕ
  pub sender : String
  pub role : MessageRole
  pub content : String
  pub in_reply_to : Option String
  pub created_at : ℕ

pub record DurableTurn : Type 0 where
  pub id : String
  pub interaction_id : String
  pub turn_index : ℕ
  pub agent_id : String
  pub status : TurnStatus
  pub created_at : ℕ
  pub completed_at : Option ℕ
  pub turn_lease_token : Option String
  pub turn_lease_owner : Option String
  pub turn_lease_expires_at : Option ℕ
  pub last_heartbeat_at : Option ℕ

pub record DurableProtocolOutcome : Type 0 where
  pub vote : Option VoteOutcome
  pub coordinator : Option CoordinatorOutcome
  pub recorded_at : ℕ

pub record DurableInteraction : Type 0 where
  pub id : String
  pub session_id : String
  pub node_key : String
  pub execution_id : String
  pub team_id : String
  pub protocol_mode : String
  pub topology : String
  pub member_ids : List String
  pub workspace_id : Option String
  pub status : InteractionStatus
  pub turns : List DurableTurn
  pub messages : List DurableMessage
  pub outcome : Option DurableProtocolOutcome
  pub version : ℕ
  pub recovered_from_turn_index : Option ℤ
  pub error : Option String
  pub created_at : ℕ
  pub updated_at : ℕ

unfoldable pub turn_by_index : DurableInteraction → ℕ → Option DurableTurn
turn_by_index i index = find_first (λ t. t.turn_index == index) i.turns

unfoldable pub message_by_id : DurableInteraction → String → Option DurableMessage
message_by_id i message_id = find_first (λ m. str_eq m.id message_id) i.messages
