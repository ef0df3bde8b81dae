-- ===== src/Kernel/Contracts.antt =====
-- src/hydramind/kernel/contracts.py: the value types of an interaction and the interaction's check.
use hydra_mind.Prelude.{
  ℕ, String, Option, List, map, Result, ok, value_error, ◌>>=◌, ◌>>◌, guard, raise_if, ltb, length,
  all,
}
use hydra_mind.Prelude.Dict.{Payload}
use hydra_mind.Prelude.Sort.{mem_string}
use hydra_mind.Mas.Contracts.{CollaborationProtocol, distinct, foreign_coordinator, non_empty}

pub data MessageRole : Type 0 where
  system user agent : MessageRole

pub data TurnStatus : Type 0 where
  pending completed failed : TurnStatus

pub data InteractionStatus : Type 0 where
  pending running completed failed : InteractionStatus

-- `turn_index` is checked to be at least 0, so it is a ℕ.
pub record Message : Type 0 where
  pub id : String
  pub interaction_id : String
  pub turn_index : ℕ
  pub sender : String
  pub recipients : List String
  pub role : MessageRole
  pub content : String
  pub in_reply_to : Option String
  pub metadata : Payload

pub record Turn : Type 0 where
  pub index : ℕ
  pub agent_id : String
  pub status : TurnStatus
  pub message_ids : List String
  pub metadata : Payload

pub record Interaction : Type 0 where
  pub id : String
  pub team_id : String
  pub member_ids : List String
  pub protocol : CollaborationProtocol
  pub messages : List Message
  pub turns : List Turn
  pub status : InteractionStatus
  pub workspace_id : Option String
  pub metadata : Payload

-- `Interaction._validate_consistency`
unfoldable pub validate_interaction : Interaction → Result (Unit {0})
unfolding distinct mem_string foreign_coordinator
validate_interaction i = do
  guard (ltb 0 (length i.member_ids)) value_error
  guard (distinct i.member_ids) value_error
  guard (all (λ t. mem_string t.agent_id i.member_ids) i.turns) value_error
  raise_if (foreign_coordinator i.protocol.coordinator_id i.member_ids) value_error

-- `Message(...)`
unfoldable pub make_message : Message → Result Message
unfolding non_empty
make_message m = do
  name ← non_empty m.id
  within ← non_empty m.interaction_id
  author ← non_empty m.sender
  ok (record m { id = name; interaction_id = within; sender = author })

-- `Turn(...)`
unfoldable pub make_turn : Turn → Result Turn
unfolding non_empty
make_turn t = do actor ← non_empty t.agent_id; ok (record t { agent_id = actor })

-- `Interaction(...)`
unfoldable pub make_interaction : Interaction → Result Interaction
unfolding non_empty validate_interaction
make_interaction i = do
  name ← non_empty i.id
  team ← non_empty i.team_id
  let j = record i { id = name; team_id = team }
  validate_interaction j
  ok j

abbrev pub acted_agent_ids : Interaction → List String
acted_agent_ids i = map (λ t. t.agent_id) i.turns
