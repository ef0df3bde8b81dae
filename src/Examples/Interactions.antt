-- ===== src/Examples/Interactions.antt =====
-- The turns and records of a durable interaction.
use hydra_mind.Prelude.{◌≡◌, refl, none, some, [], ◌∷◌, ok, err, turn_lease, pos, arith, strip}
use hydra_mind.Prelude.Dict
use hydra_mind.Kernel.Contracts.{MessageRole, TurnStatus, InteractionStatus}
use hydra_mind.Mas.Votes.{CoordinatorOutcome}
use hydra_mind.Control.Interactions.{DurableInteraction, DurableTurn}
use hydra_mind.Control.Models.{RuntimeSession}
use hydra_mind.Control.TurnLease.{
  leased_turn, ensure_turn, replace_turn, turn_id, grant_durable_turn_lease,
}
use hydra_mind.Control.TurnLease.Exclusive.{turn_grant_excludes}
use hydra_mind.Control.Durable.{
  turn_update, message_update, message_id, outcome_update, completion_update, resumed_update,
  record_durable_turn, record_durable_message, record_durable_outcome, complete_durable_interaction,
  mark_durable_interaction_resumed,
}
use hydra_mind.Control.Durable.Idempotent.{
  turn_recorded_once, message_recorded_once, outcome_recorded_once, completion_recorded_once,
  resumption_recorded_once,
}
use hydra_mind.Examples.Data.{durable, turn_done, session_in}

abbrev start : RuntimeSession
start = session_in durable

abbrev leased_turn_1 : DurableTurn
leased_turn_1 = record {
  id = "turn-i1-1";
  interaction_id = "i1";
  turn_index = 1;
  agent_id = "b";
  status = TurnStatus.pending;
  created_at = 0;
  completed_at = none;
  turn_lease_token = some "tok";
  turn_lease_owner = some "worker";
  turn_lease_expires_at = some 1000000;
  last_heartbeat_at = some 0;
}

abbrev leased_durable : DurableInteraction
leased_durable = record durable { turns = turn_done ∷ leased_turn_1 ∷ []; version = 3 }

turn_granted :
    grant_durable_turn_lease start "i1" 1 "b" "worker" (pos 1) none "tok" 0
    ≡ ok (session_in leased_durable, leased_durable)
unfolding grant_durable_turn_lease Dict.get leased_turn ensure_turn strip Dict.put replace_turn
    turn_id
turn_granted = refl

turn_grant_excludes_example :
    grant_durable_turn_lease (session_in leased_durable) "i1" 1 "b" "other" (pos 5) none "tok2" 10
    ≡ err turn_lease
turn_grant_excludes_example =
    turn_grant_excludes start "i1" 1 "b" "worker" 0 none "tok" 0 turn_granted "b" "other" (pos 5)
      none "tok2" 10 (omega arith)

abbrev noted : DurableInteraction → RuntimeSession × DurableInteraction
noted i = (record (session_in i) { updated_at = 5 }, i)

abbrev with_turn : DurableInteraction
with_turn = record durable {
  turns =
      turn_done
      ∷ record turn_done {
        id = "turn-i1-1";
        turn_index = 1;
        agent_id = "b";
        created_at = 5;
        completed_at = some 5;
      }
      ∷ [];
  version = 2;
  updated_at = 5;
}

turn_recorded_once_example :
    record_durable_turn (noted with_turn).0 "i1" 1 "other" TurnStatus.completed 9
    ≡ ok (noted with_turn)
unfolding record_durable_turn Dict.get turn_update Dict.put turn_id
turn_recorded_once_example =
    turn_recorded_once start "i1" 1 "b" "other" TurnStatus.completed 5 9 (noted with_turn) refl

abbrev with_message : DurableInteraction
with_message = record durable {
  messages =
      record {
        id = "msg-i1-0-a";
        interaction_id = "i1";
        turn_index = 0;
        sender = "a";
        role = MessageRole.agent;
        content = "hello";
        in_reply_to = none;
        created_at = 5;
      }
      ∷ [];
  version = 2;
  updated_at = 5;
}

message_recorded_once_example :
    record_durable_message (noted with_message).0 "i1" 0 "a" "other words" MessageRole.agent none 9
    ≡ ok (noted with_message)
unfolding record_durable_message Dict.get message_update Dict.put message_id
message_recorded_once_example =
    message_recorded_once start "i1" 0 "a" "hello" "other words" MessageRole.agent MessageRole.agent
      none none 5 9 (noted with_message) refl

abbrev decision : CoordinatorOutcome
decision = record { coordinator_id = some "a"; summary = "done" }

abbrev with_outcome : DurableInteraction
with_outcome = record durable {
  outcome = some (record { vote = none; coordinator = some decision; recorded_at = 5 });
  version = 2;
  updated_at = 5;
}

outcome_recorded_once_example :
    record_durable_outcome (noted with_outcome).0 "i1" none (some decision) 9
    ≡ ok (noted with_outcome)
unfolding record_durable_outcome Dict.get outcome_update Dict.put
outcome_recorded_once_example =
    outcome_recorded_once start "i1" none (some decision) 5 9 (noted with_outcome) refl

abbrev with_failure : DurableInteraction
with_failure = record durable {
  status = InteractionStatus.failed;
  error = some "timeout";
  version = 2;
  updated_at = 5;
}

completion_recorded_once_example :
    complete_durable_interaction
      (noted with_failure).0
      "i1"
      InteractionStatus.failed
      (some "again")
      9
    ≡ ok (noted with_failure)
unfolding complete_durable_interaction Dict.get completion_update Dict.put
completion_recorded_once_example =
    completion_recorded_once start "i1" InteractionStatus.failed (some "timeout") (some "again") 5 9
      (noted with_failure) refl

abbrev with_marker : DurableInteraction
with_marker = record durable {
  recovered_from_turn_index = some (pos 1);
  version = 2;
  updated_at = 5;
}

resumption_recorded_once_example :
    mark_durable_interaction_resumed (noted with_marker).0 "i1" (pos 1) 9 ≡ ok (noted with_marker)
unfolding mark_durable_interaction_resumed Dict.get resumed_update Dict.put
resumption_recorded_once_example =
    resumption_recorded_once start "i1" (pos 1) 5 9 (noted with_marker) refl
