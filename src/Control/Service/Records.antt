-- ===== src/Control/Service/Records.antt =====
-- `SessionService`: the records of tool calls and of interaction events.
use hydra_mind.Prelude.{ℕ, String, [], ◌∷◌, Json, str, if◌then◌else◌}
use hydra_mind.Prelude.Exec.{◌>>=◌, pure, lift}
use hydra_mind.Prelude.Dict.{Payload}
use hydra_mind.Control.Models.{ToolExecution}
use hydra_mind.Control.Store.{Action, put, get_session}
use hydra_mind.Control.ToolRecords
use hydra_mind.Control.ToolRecords.{ToolStart, ToolEnd}
use hydra_mind.Control.InteractionLog.{
  InteractionLogRecord, interaction_idempotency_key, append_interaction_log, kind_value,
}
use hydra_mind.Control.Service.Ledger.{is_processed, with_key}

unfoldable pub record_tool_execution_started :
    (Payload → Payload) → String → String → ToolStart → String → ℕ → Action ToolExecution
record_tool_execution_started redact session_id execution_id c fresh now = do
  s ← get_session session_id
  r ← lift (ToolRecords.record_tool_execution_started redact s execution_id c fresh now)
  t ← put r.0
  pure r.1

unfoldable pub record_tool_execution_completed :
    String → String → String → ToolEnd → ℕ → Action ToolExecution
record_tool_execution_completed session_id execution_id tool_call_id e now = do
  s ← get_session session_id
  r ← lift (ToolRecords.record_tool_execution_completed s execution_id tool_call_id e now)
  t ← put r.0
  pure r.1

-- The detail of the record in the ledger.
abbrev pub event_detail : InteractionLogRecord → Payload
event_detail r =
    ("interaction_id", str r.interaction_id) ∷ ("event_kind", str (kind_value r.event_kind)) ∷ []

unfoldable pub record_interaction_event :
    (InteractionLogRecord → Json) → String → InteractionLogRecord → ℕ → Action InteractionLogRecord
record_interaction_event dump session_id r now = do
  s ← get_session session_id
  if is_processed s (interaction_idempotency_key r) then pure r else do
    logged ← lift (append_interaction_log dump s r now)
    t ← put (with_key logged (interaction_idempotency_key r) "interaction" (event_detail r) now)
    pure r
