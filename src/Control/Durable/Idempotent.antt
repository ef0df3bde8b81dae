-- ===== src/Control/Durable/Idempotent.antt =====
-- Recording the same thing twice: the second record changes nothing.
use hydra_mind.Prelude.{
  pos, negsuc, ℤ, ℕ, String, ◌≡◌, refl, ◌∙◌, true, Option, none, some, Result, ok, arith, eq_refl,
  >>=-eq-ok, ok-injective, subst, inl, inr, Option-cases, ◌>>=◌,
}
use hydra_mind.Prelude.Dict
use hydra_mind.Prelude.Dict.{get-put}
use hydra_mind.Kernel.Contracts.{MessageRole, TurnStatus, InteractionStatus}
use hydra_mind.Mas.Votes.{VoteOutcome, CoordinatorOutcome}
use hydra_mind.Control.Interactions.{DurableTurn, DurableInteraction, turn_by_index, message_by_id}
use hydra_mind.Control.Models.{RuntimeSession}
use hydra_mind.Control.TurnLease.Turns.{
  turn_at, turn_at-replace, turn_at-index, turn_at-append, message-append,
}
use hydra_mind.Control.TurnLease.{replace_turns, new_turn, with_interaction}
use hydra_mind.Control.Durable.{
  require_durable, written, same_turn_status, completion_time, turn_update, record_durable_turn,
  message_id, message_update, record_durable_message, outcome_update, record_durable_outcome,
  resumed_update, mark_durable_interaction_resumed, completion_update, complete_durable_interaction,
}

-- `g` writes nothing where `f` wrote nothing, and nothing after a write of `f`.
record IsReplay (f g : DurableInteraction → Option DurableInteraction) : Type 0 where
  idle : (i : DurableInteraction) → f i ≡ none → g i ≡ none
  settled : (i u : DurableInteraction) → f i ≡ some u → g u ≡ none

-- A method that records what `f` makes of the interaction.
abbrev recorded :
    RuntimeSession
    → String
    → (DurableInteraction → Option DurableInteraction)
    → ℕ
    → Result (RuntimeSession × DurableInteraction)
recorded s id f now = do i ← require_durable s id; ok (written s id i (f i) now)

require-held :
    (s : RuntimeSession) (id : String) (i : DurableInteraction)
    → require_durable s id ≡ ok i
    → Dict.get s.durable_interactions id ≡ some i
require-held s id i h = ground arith

recorded_held :
    (s : RuntimeSession) (id : String) (f : DurableInteraction → Option DurableInteraction)
    (now : ℕ) (i : DurableInteraction)
    → Dict.get s.durable_interactions id ≡ some i
    → recorded s id f now ≡ ok (written s id i (f i) now)
recorded_held s id f now i held = rw held refl

replayed :
    (f g : DurableInteraction → Option DurableInteraction) (s : RuntimeSession) (id : String)
    (now later : ℕ) (r : RuntimeSession × DurableInteraction)
    → IsReplay f g
    → recorded s id f now ≡ ok r
    → recorded r.0 id g later ≡ ok r
replayed f g s id now later r p h =
    let (i, found, same) = >>=-eq-ok (require_durable s id) _ h in
    let held = require-held s id i found in
    subst (λ (q : RuntimeSession × DurableInteraction). recorded q.0 id g later ≡ ok q)
      (ok-injective same)
      (elim (Option-cases (f i)) [
        | inl free ↦ rw (free) (recorded_held s id g later i held ∙ rw (p.idle i free) refl)
        | inr (u, update) ↦ rw (update) (
            recorded_held (with_interaction s id u now) id g later u
              (rw (get-put s.durable_interactions id id u, eq_refl id) refl)
            ∙ rw (p.settled i u update) refl)
      ])

same_self : (status : TurnStatus) → same_turn_status status status ≡ true
same_self status = ground arith

turn_stays :
    (id : String) (index : ℕ) (other : String) (status : TurnStatus) (later : ℕ)
    (u : DurableInteraction) (t : DurableTurn)
    → turn_at u.turns index ≡ some t
    → t.status ≡ status
    → turn_update id u index other status later ≡ none
unfolding turn_update turn_by_index
turn_stays id index other status later u t found same =
    rw (found, turn_update) (rw (same, same_self status) refl)

turn-IsReplay :
    (id : String) (index : ℕ) (agent_id other : String) (status : TurnStatus) (now later : ℕ)
    → IsReplay
        (λ i. turn_update id i index agent_id status now)
        (λ i. turn_update id i index other status later)
unfolding turn_update turn_by_index replace_turns
turn-IsReplay id index agent_id other status now later = record {
  idle = λ i h. ground arith;
  settled = λ i u h. elim (Option-cases (turn_at i.turns index)) [
    | inl free ↦
        let t = new_turn id index agent_id status now (completion_time status now) in
        turn_stays id index other status later u t
          (ground (arith, turn_at-append i.turns t index free refl)) refl
    | inr (old, found) ↦
        let t : DurableTurn = record old {
          status = status;
          completed_at = completion_time status now;
        } in
        turn_stays id index other status later u t
          (ground (
            arith,
            turn_at-replace i.turns t old index found (turn_at-index i.turns old index found),
          ))
          refl
  ];
}

message-IsReplay :
    (id : String) (index : ℕ) (sender content content' : String) (role role' : MessageRole)
    (reply reply' : Option String) (now later : ℕ)
    → IsReplay
        (λ i. message_update id i index sender content role reply now)
        (λ i. message_update id i index sender content' role' reply' later)
unfolding message_update message_by_id
message-IsReplay id index sender content content' role role' reply reply' now later = record {
  idle = λ i h. ground arith;
  settled = λ i u h. ground (
    arith,
    message-append i.messages
        (record {
          id = message_id id index sender;
          interaction_id = id;
          turn_index = index;
          sender = sender;
          role = role;
          content = content;
          in_reply_to = reply;
          created_at = now;
        })
        (message_id id index sender),
  );
}

outcome-IsReplay :
    (vote : Option VoteOutcome) (decided : Option CoordinatorOutcome) (now later : ℕ)
    → IsReplay (λ i. outcome_update i vote decided now) (λ i. outcome_update i vote decided later)
unfolding outcome_update
outcome-IsReplay vote decided now later = record {
  idle = λ i h. ground arith;
  settled = λ i u h. ground arith;
}

resumed-IsReplay :
    (index : ℤ) (now later : ℕ)
    → IsReplay (λ i. resumed_update i index now) (λ i. resumed_update i index later)
unfolding resumed_update
resumed-IsReplay (pos n) now later = record {
  idle = λ i h. ground arith;
  settled = λ i u h. ground arith;
}
resumed-IsReplay (negsuc n) now later = record {
  idle = λ i h. ground arith;
  settled = λ i u h. ground arith;
}

completion-IsReplay :
    (status : InteractionStatus) (error error' : Option String) (now later : ℕ)
    → IsReplay
        (λ i. completion_update i status error now)
        (λ i. completion_update i status error' later)
unfolding completion_update
completion-IsReplay status error error' now later = record {
  idle = λ i h. ground arith;
  settled = λ i u h. ground arith;
}

-- After a turn has been recorded with a status, recording the turn at the same index with the same
-- status, for whichever agent and at whichever time, succeeds and gives back the session and the
-- interaction unchanged.
pub turn_recorded_once :
    (s : RuntimeSession) (id : String) (index : ℕ) (agent_id other : String) (status : TurnStatus)
    (now later : ℕ) (r : RuntimeSession × DurableInteraction)
    → record_durable_turn s id index agent_id status now ≡ ok r
    → record_durable_turn r.0 id index other status later ≡ ok r
unfolding record_durable_turn
turn_recorded_once s id index agent_id other status now later r =
    replayed _ _ s id now later r (turn-IsReplay id index agent_id other status now later)

-- After a message has been recorded for a turn and a sender, recording a message for the same turn
-- and sender succeeds and gives back the session and the interaction unchanged, whatever its
-- content.
pub message_recorded_once :
    (s : RuntimeSession) (id : String) (index : ℕ) (sender content content' : String)
    (role role' : MessageRole) (reply reply' : Option String) (now later : ℕ)
    (r : RuntimeSession × DurableInteraction)
    → record_durable_message s id index sender content role reply now ≡ ok r
    → record_durable_message r.0 id index sender content' role' reply' later ≡ ok r
unfolding record_durable_message
message_recorded_once s id index sender content content' role role' reply reply' now later r =
    replayed _ _ s id now later r
      (message-IsReplay id index sender content content' role role' reply reply' now later)

-- After a call that records an outcome, a second call with the same outcome succeeds and gives back
-- the session and the interaction unchanged.
pub outcome_recorded_once :
    (s : RuntimeSession) (id : String) (vote : Option VoteOutcome)
    (decided : Option CoordinatorOutcome) (now later : ℕ) (r : RuntimeSession × DurableInteraction)
    → record_durable_outcome s id vote decided now ≡ ok r
    → record_durable_outcome r.0 id vote decided later ≡ ok r
unfolding record_durable_outcome
outcome_recorded_once s id vote decided now later r =
    replayed _ _ s id now later r (outcome-IsReplay vote decided now later)

-- After an interaction has been completed with a status, completing it with the same status
-- succeeds and gives back the session and the interaction unchanged, whatever the error text.
pub completion_recorded_once :
    (s : RuntimeSession) (id : String) (status : InteractionStatus) (error error' : Option String)
    (now later : ℕ) (r : RuntimeSession × DurableInteraction)
    → complete_durable_interaction s id status error now ≡ ok r
    → complete_durable_interaction r.0 id status error' later ≡ ok r
unfolding complete_durable_interaction
completion_recorded_once s id status error error' now later r =
    replayed _ _ s id now later r (completion-IsReplay status error error' now later)

-- After an interaction has been marked as resumed from an index, marking it with the same index
-- succeeds and gives back the session and the interaction unchanged.
pub resumption_recorded_once :
    (s : RuntimeSession) (id : String) (index : ℤ) (now later : ℕ)
    (r : RuntimeSession × DurableInteraction)
    → mark_durable_interaction_resumed s id index now ≡ ok r
    → mark_durable_interaction_resumed r.0 id index later ≡ ok r
unfolding mark_durable_interaction_resumed
resumption_recorded_once s id index now later r =
    replayed _ _ s id now later r (resumed-IsReplay index now later)
