-- ===== src/Control/History/SafeRecords.antt =====
-- The records of tool calls and of interaction events keep what `Extension` says.
use hydra_mind.Prelude.{ℕ, String, ◌≡◌, false, ok, arith, Json}
use hydra_mind.Prelude.Dict.{Payload}
use hydra_mind.Control.Models.{RuntimeSession, ToolExecution}
use hydra_mind.Control.Store.Extension.{Kept, Kept-trans}
use hydra_mind.Control.Store.Rules.{IsSafe, safe_rules}
use hydra_mind.Control.History.Frames.{IsFramed, framed-Kept}
use hydra_mind.Control.History.Changes.{with_key-Kept}
use hydra_mind.Control.ToolRecords
use hydra_mind.Control.ToolRecords.{ToolStart, ToolEnd}
use hydra_mind.Control.InteractionLog.{InteractionLogRecord, append_interaction_log}
use hydra_mind.Control.Service.Ledger.{is_processed, with_key}
use hydra_mind.Control.Service.Records.{
  record_tool_execution_started, record_tool_execution_completed, record_interaction_event,
}

module _ (s : RuntimeSession) where
  tool_started-IsFramed :
      (redact : Payload → Payload) (execution_id : String) (c : ToolStart) (fresh : String)
      (now : ℕ) (r : RuntimeSession × ToolExecution)
      → ToolRecords.record_tool_execution_started redact s execution_id c fresh now ≡ ok r
      → IsFramed s r.0
  unfolding ToolRecords.record_tool_execution_started
  tool_started-IsFramed redact execution_id c fresh now r h = ground arith

  tool_ended-IsFramed :
      (execution_id tool_call_id : String) (e : ToolEnd) (now : ℕ)
      (r : RuntimeSession × ToolExecution)
      → ToolRecords.record_tool_execution_completed s execution_id tool_call_id e now ≡ ok r
      → IsFramed s r.0
  unfolding ToolRecords.record_tool_execution_completed
  tool_ended-IsFramed execution_id tool_call_id e now r h = ground arith

  pub logged-IsFramed :
      (dump : InteractionLogRecord → Json) (r : InteractionLogRecord) (now : ℕ) (t : RuntimeSession)
      → append_interaction_log dump s r now ≡ ok t
      → IsFramed s t
  unfolding append_interaction_log
  logged-IsFramed dump r now t h = ground arith

ruleset record_rules = (safe_rules, framed-Kept, tool_started-IsFramed, tool_ended-IsFramed)

framed_key-Kept :
    (s t : RuntimeSession) (key kind : String) (detail : Payload) (now : ℕ)
    → IsFramed s t
    → is_processed s key ≡ false
    → Kept s (with_key t key kind detail now)
framed_key-Kept s t key kind detail now f free =
    Kept-trans (framed-Kept f) (with_key-Kept t key kind detail now (rw f.same_ledger free))

pub tool_started-IsSafe :
    (redact : Payload → Payload) (id execution_id : String) (c : ToolStart) (fresh : String)
    (now : ℕ)
    → IsSafe (record_tool_execution_started redact id execution_id c fresh now)
unfolding record_tool_execution_started
tool_started-IsSafe redact id execution_id c fresh now = search record_rules

pub tool_ended-IsSafe :
    (id execution_id tool_call_id : String) (e : ToolEnd) (now : ℕ)
    → IsSafe (record_tool_execution_completed id execution_id tool_call_id e now)
unfolding record_tool_execution_completed
tool_ended-IsSafe id execution_id tool_call_id e now = search record_rules

pub event-IsSafe :
    (dump : InteractionLogRecord → Json) (id : String) (r : InteractionLogRecord) (now : ℕ)
    → IsSafe (record_interaction_event dump id r now)
unfolding record_interaction_event
event-IsSafe dump id r now = search (safe_rules, framed_key-Kept, logged-IsFramed) depth 14
