-- ===== src/Kernel/Runner.antt =====
-- src/hydramind/orchestration/collaboration_runtime.py: the record of a member's message, and the
-- loop of collaboration_team.py that asks for turns until there is none. What a member answers
-- comes from a model, so it is a function argument. Events and the durable log are left out.
use Prim.Native.String.{◌++◌ as str_append}
pub mod Plan
pub mod Debate
use hydra_mind.Prelude.{
  ℕ, zero, suc, String, Option, none, some, List, [], ◌∷◌, ◌++◌, Result, ok, err, ◌>>=◌, key_error,
  if◌then◌else◌,
}
use hydra_mind.Prelude.Sort.{mem_string}
use hydra_mind.Prelude.Text.{decimal}
use hydra_mind.Kernel.Contracts.{Message, MessageRole, Turn, TurnStatus, Interaction}
use hydra_mind.Kernel.Scheduler.{Strategy, next_turn}

-- f"msg-{turn.index}-{member.id}"
unfoldable pub produced_id : Turn → String
unfolding decimal
produced_id t = str_append "msg-" (str_append (decimal t.index) (str_append "-" t.agent_id))

unfoldable pub record_member_message : Interaction → Turn → String → Interaction
record_member_message i t content = record i {
  messages =
      i.messages
      ++ record {
        id = produced_id t;
        interaction_id = i.id;
        turn_index = t.index;
        sender = t.agent_id;
        recipients = [];
        role = MessageRole.agent;
        content = content;
        in_reply_to = none;
        metadata = [];
      }
        ∷ [];
  turns =
      i.turns
      ++ record {
        index = t.index;
        agent_id = t.agent_id;
        status = TurnStatus.completed;
        message_ids = produced_id t ∷ [];
        metadata = [];
      }
        ∷ [];
}

-- The `while scheduled_turn is not None` loop, on fuel. The agent of a turn is looked up in
-- `_members_by_id`, whose keys are the `member_ids` of the interaction.
unfoldable pub run_turns : ℕ → (Turn → String) → Strategy → Interaction → Result Interaction
unfolding mem_string
run_turns zero reply s i = ok i
run_turns (suc fuel) reply s i = next_turn s i >>= λ t. elim t [
  | none ↦ ok i
  | some t ↦
      let rest = run_turns fuel reply s (record_member_message i t (reply t)) in
      if mem_string t.agent_id i.member_ids then rest else err key_error
]
