-- ===== src/Control/InteractionLog.antt =====
-- control/session_interactions.py: the log of interaction events in the metadata of a session, and
-- the key by which an event is known. `record.model_dump(mode="json")`, which belongs to pydantic, is
-- the argument `dump`.
use Prim.Native.String.{◌++◌ as str_append}
use hydra_mind.Prelude.{
  ℕ, String, Option, none, some, Json, null, arr, obj, Items, nil, cons, Fields, end, field, Result,
  ok, err, value_error, ◌>>=◌, ◌>>◌, guard, str_eq, if◌then◌else◌,
}
use hydra_mind.Prelude.Text.{decimal}
use hydra_mind.Prelude.Dict
use hydra_mind.Prelude.Dict.{Payload}
use hydra_mind.Control.Models.{RuntimeSession}

pub data InteractionLogEventKind : Type 0 where
  interaction_started turn_started turn_completed message_sent vote_cast interaction_completed
        interaction_failed :
      InteractionLogEventKind

-- event_kind.value
abbrev pub kind_value : InteractionLogEventKind → String
kind_value InteractionLogEventKind.interaction_started = "interaction_started"
kind_value InteractionLogEventKind.turn_started = "turn_started"
kind_value InteractionLogEventKind.turn_completed = "turn_completed"
kind_value InteractionLogEventKind.message_sent = "message_sent"
kind_value InteractionLogEventKind.vote_cast = "vote_cast"
kind_value InteractionLogEventKind.interaction_completed = "interaction_completed"
kind_value InteractionLogEventKind.interaction_failed = "interaction_failed"

pub record InteractionLogRecord : Type 0 where
  pub id : String
  pub session_id : String
  pub node_key : String
  pub execution_id : String
  pub trace_id : Option String
  pub interaction_id : String
  pub team_id : String
  pub workspace_id : Option String
  pub event_kind : InteractionLogEventKind
  pub actor : Option String
  pub turn_index : Option ℕ
  pub content_preview : Option String
  pub detail : Payload
  pub created_at : ℕ

-- "-" if record.turn_index is None else str(record.turn_index)
unfoldable pub turn_text : Option ℕ → String
unfolding decimal
turn_text none = "-"
turn_text (some n) = decimal n

-- record.actor or "-"
abbrev pub actor_text : Option String → String
actor_text none = "-"
actor_text (some a) = if str_eq a "" then "-" else a

-- The parts of the key, with a colon between two.
abbrev pub with_colon : String → String → String
with_colon a b = str_append a (str_append ":" b)

unfoldable pub interaction_idempotency_key : InteractionLogRecord → String
unfolding turn_text
interaction_idempotency_key r = with_colon "interaction" (
    with_colon r.interaction_id (
      with_colon (kind_value r.event_kind)
        (with_colon r.execution_id (with_colon (turn_text r.turn_index) (actor_text r.actor)))))

-- log.get(key)
unfoldable pub field_of : Fields → String → Option Json
field_of end key = none
field_of (field j v rest) key = if str_eq j key then some v else field_of rest key

-- raw_entries, if it is a list
abbrev pub items_of : Option Json → Result Items
items_of none = ok nil
items_of (some (arr items)) = ok items
items_of _ = err value_error

-- The entries that are there: the three branches on `log`.
unfoldable pub logged : Option Json → Result Items
unfolding field_of
logged none = ok nil
logged (some null) = ok nil
logged (some (obj fields)) = items_of (field_of fields "entries")
logged _ = err value_error

-- entries.append(...)
unfoldable pub append_item : Items → Json → Items
append_item nil x = cons x nil
append_item (cons y items) x = cons y (append_item items x)

unfoldable pub append_interaction_log :
    (InteractionLogRecord → Json)
    → RuntimeSession
    → InteractionLogRecord
    → ℕ
    → Result RuntimeSession
unfolding logged append_item
append_interaction_log dump s r now = do
  guard (str_eq r.session_id s.id) value_error
  entries ← logged (Dict.get s.metadata "interaction_log")
  ok (record s {
    metadata =
        Dict.put s.metadata "interaction_log"
          (obj (field "entries" (arr (append_item entries (dump r))) end));
    updated_at = now;
  })
