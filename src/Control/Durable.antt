-- ===== src/Control/Durable.antt =====
-- control/session_durable_interactions.py: the idempotent writes of a durable interaction.
pub mod Idempotent
use Prim.Native.String.{◌++◌ as str_append}
use hydra_mind.Prelude.{
  ℤ, pos, negsuc, ℕ, zero, suc, ◌+◌, String, Bool, true, false, not, ◌&&◌, Option, none, some, List,
  [], ◌∷◌, ◌++◌, Result, ok, err, key_error, ◌>>=◌, or_raise, is_some, ◌==◌, if◌then◌else◌,
}
use hydra_mind.Prelude.Dict
use hydra_mind.Prelude.Text.{decimal}
use hydra_mind.Kernel.Contracts.{MessageRole, TurnStatus, InteractionStatus}
use hydra_mind.Mas.Votes.{VoteOutcome, CoordinatorOutcome}
use hydra_mind.Control.Interactions.{
  DurableMessage, DurableTurn, DurableInteraction, DurableProtocolOutcome, turn_by_index,
  message_by_id,
}
use hydra_mind.Control.Models.{RuntimeSession}
use hydra_mind.Control.TurnLease.{replace_turns, new_turn, with_interaction}

-- `_require` of this file, which raises another exception than that of the turn leases
abbrev pub require_durable : RuntimeSession → String → Result DurableInteraction
require_durable s interaction_id =
    or_raise (Dict.get s.durable_interactions interaction_id) key_error

-- The two updates that `_bumped` adds to the others.
abbrev pub bumped : DurableInteraction → ℕ → DurableInteraction
bumped i now = record i { version = i.version + 1; updated_at = now }

unfoldable pub started :
    String
    → String
    → String
    → String
    → String
    → String
    → String
    → List String
    → Option String
    → ℕ
    → DurableInteraction
started interaction_id session_id node_key execution_id team_id mode topology members workspace
      now =
    record {
      id = interaction_id;
      session_id = session_id;
      node_key = node_key;
      execution_id = execution_id;
      team_id = team_id;
      protocol_mode = mode;
      topology = topology;
      member_ids = members;
      workspace_id = workspace;
      status = InteractionStatus.running;
      turns = [];
      messages = [];
      outcome = none;
      version = 1;
      recovered_from_turn_index = none;
      error = none;
      created_at = now;
      updated_at = now;
    }

unfoldable pub start_durable_interaction :
    RuntimeSession
    → String
    → String
    → String
    → String
    → String
    → String
    → List String
    → Option String
    → ℕ
    → RuntimeSession × DurableInteraction
unfolding started
start_durable_interaction s interaction_id node_key execution_id team_id mode topology members
      workspace now =
    elim (Dict.get s.durable_interactions interaction_id) [
      | some i ↦ (s, i)
      | none ↦
          let i =
            started interaction_id s.id node_key execution_id team_id mode topology members
              workspace now in
          (with_interaction s interaction_id i now, i)
    ]

abbrev pub same_turn_status : TurnStatus → TurnStatus → Bool
same_turn_status TurnStatus.pending TurnStatus.pending = true
same_turn_status TurnStatus.completed TurnStatus.completed = true
same_turn_status TurnStatus.failed TurnStatus.failed = true
same_turn_status _ _ = false

-- now if status is COMPLETED else None
abbrev pub completion_time : TurnStatus → ℕ → Option ℕ
completion_time TurnStatus.completed now = some now
completion_time _ now = none

-- The interaction after a turn record, or none where the record changes nothing.
unfoldable pub turn_update :
    String → DurableInteraction → ℕ → String → TurnStatus → ℕ → Option DurableInteraction
unfolding turn_by_index replace_turns new_turn
turn_update interaction_id i index agent_id status now = elim (turn_by_index i index) [
  | some t ↦
      if same_turn_status t.status status
      then none
      else some (record (bumped i now) {
        turns =
            replace_turns i.turns
              (record t { status = status; completed_at = completion_time status now });
      })
  | none ↦ some (record (bumped i now) {
    turns =
        i.turns
        ++ new_turn interaction_id index agent_id status now (completion_time status now) ∷ [];
  })
]

-- `return interaction` on no change, else the write to the session
abbrev pub written :
    RuntimeSession
    → String
    → DurableInteraction
    → Option DurableInteraction
    → ℕ
    → RuntimeSession × DurableInteraction
written s interaction_id i none now = (s, i)
written s interaction_id i (some u) now = (with_interaction s interaction_id u now, u)

unfoldable pub record_durable_turn :
    RuntimeSession
    → String
    → ℕ
    → String
    → TurnStatus
    → ℕ
    → Result (RuntimeSession × DurableInteraction)
record_durable_turn s interaction_id index agent_id status now = do
  i ← require_durable s interaction_id
  ok (written s interaction_id i (turn_update interaction_id i index agent_id status now) now)

-- f"msg-{interaction_id}-{turn_index}-{sender}"
unfoldable pub message_id : String → ℕ → String → String
unfolding decimal
message_id interaction_id index sender = str_append "msg-" (
    str_append interaction_id (str_append "-" (str_append (decimal index) (str_append "-" sender))))

unfoldable pub message_update :
    String
    → DurableInteraction
    → ℕ
    → String
    → String
    → MessageRole
    → Option String
    → ℕ
    → Option DurableInteraction
unfolding message_by_id
message_update interaction_id i index sender content role in_reply_to now =
    if is_some (message_by_id i (message_id interaction_id index sender))
    then none
    else some (record (bumped i now) {
      messages =
          i.messages
          ++ record {
            id = message_id interaction_id index sender;
            interaction_id = interaction_id;
            turn_index = index;
            sender = sender;
            role = role;
            content = content;
            in_reply_to = in_reply_to;
            created_at = now;
          }
            ∷ [];
    })

unfoldable pub record_durable_message :
    RuntimeSession
    → String
    → ℕ
    → String
    → String
    → MessageRole
    → Option String
    → ℕ
    → Result (RuntimeSession × DurableInteraction)
record_durable_message s interaction_id index sender content role in_reply_to now = do
  i ← require_durable s interaction_id
  ok (
      written s interaction_id i
        (message_update interaction_id i index sender content role in_reply_to now) now)

unfoldable pub outcome_update :
    DurableInteraction
    → Option VoteOutcome
    → Option CoordinatorOutcome
    → ℕ
    → Option DurableInteraction
outcome_update i vote coordinator now =
    if is_some i.outcome
    then none
    else if not (is_some vote) && not (is_some coordinator)
    then none
    else some (record (bumped i now) {
      outcome = some (record { vote = vote; coordinator = coordinator; recorded_at = now });
    })

unfoldable pub record_durable_outcome :
    RuntimeSession
    → String
    → Option VoteOutcome
    → Option CoordinatorOutcome
    → ℕ
    → Result (RuntimeSession × DurableInteraction)
record_durable_outcome s interaction_id vote coordinator now = do
  i ← require_durable s interaction_id
  ok (written s interaction_id i (outcome_update i vote coordinator now) now)

abbrev pub same_marker : Option ℤ → ℤ → Bool
same_marker (some (pos m)) (pos n) = m == n
same_marker (some (negsuc m)) (negsuc n) = m == n
same_marker _ _ = false

unfoldable pub resumed_update : DurableInteraction → ℤ → ℕ → Option DurableInteraction
resumed_update i index now =
    if same_marker i.recovered_from_turn_index index
    then none
    else some (record (bumped i now) { recovered_from_turn_index = some index })

unfoldable pub mark_durable_interaction_resumed :
    RuntimeSession → String → ℤ → ℕ → Result (RuntimeSession × DurableInteraction)
mark_durable_interaction_resumed s interaction_id index now = do
  i ← require_durable s interaction_id
  ok (written s interaction_id i (resumed_update i index now) now)

abbrev pub same_interaction_status : InteractionStatus → InteractionStatus → Bool
same_interaction_status InteractionStatus.pending InteractionStatus.pending = true
same_interaction_status InteractionStatus.running InteractionStatus.running = true
same_interaction_status InteractionStatus.completed InteractionStatus.completed = true
same_interaction_status InteractionStatus.failed InteractionStatus.failed = true
same_interaction_status _ _ = false

unfoldable pub completion_update :
    DurableInteraction → InteractionStatus → Option String → ℕ → Option DurableInteraction
completion_update i status error now =
    if same_interaction_status i.status status
    then none
    else some (record (bumped i now) { status = status; error = error })

unfoldable pub complete_durable_interaction :
    RuntimeSession
    → String
    → InteractionStatus
    → Option String
    → ℕ
    → Result (RuntimeSession × DurableInteraction)
complete_durable_interaction s interaction_id status error now = do
  i ← require_durable s interaction_id
  ok (written s interaction_id i (completion_update i status error now) now)
