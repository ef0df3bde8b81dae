-- ===== src/Control/ToolRecords.antt =====
-- control/session_execution.py: the records of the tool calls inside an attempt. `redact_value` of
-- observability/redaction.py, as it acts on the arguments of a call, is the argument `redact`.
use hydra_mind.Prelude.{
  ℕ, ℤ, String, Bool, true, false, Option, none, some, [], ◌∷◌, ◌++◌, Result, ok, execution_lease,
  ◌>>=◌, or_raise, truthy, str_eq, if◌then◌else◌, find_first, modify_first,
}
use hydra_mind.Prelude.Dict
use hydra_mind.Prelude.Dict.{Payload}
use hydra_mind.Control.States.{ToolExecutionStatus}
use hydra_mind.Control.Models.{ToolExecution, NodeAttempt, RuntimeSession}
use hydra_mind.Control.Execution.{find_attempt_by_id, with_attempt}

abbrev pub is_tool_call : String → ToolExecution → Bool
is_tool_call tool_call_id t = str_eq t.tool_call_id tool_call_id

abbrev pub find_tool_execution : NodeAttempt → String → Option ToolExecution
find_tool_execution a tool_call_id = find_first (is_tool_call tool_call_id) a.tool_executions

-- payload or {}
abbrev pub or_empty : Option Payload → Payload
or_empty none = []
or_empty (some d) = d

-- trace_id or attempt.trace_id
abbrev pub trace_or : Option String → Option String → Option String
trace_or trace_id other = if truthy trace_id then trace_id else other

-- What a start gives, as an argument of the definitions below.
pub record ToolStart : Type 0 where
  pub tool_call_id : String
  pub tool_name : String
  pub round_no : ℤ
  pub arguments : Option Payload
  pub trace_id : Option String
  pub metadata : Option Payload

-- ToolExecution(...)
abbrev pub new_tool : (Payload → Payload) → NodeAttempt → ToolStart → String → ℕ → ToolExecution
new_tool redact a c fresh now = record {
  id = fresh;
  node_key = a.node_key;
  execution_id = a.id;
  trace_id = trace_or c.trace_id a.trace_id;
  tool_call_id = c.tool_call_id;
  tool_name = c.tool_name;
  round_no = c.round_no;
  status = ToolExecutionStatus.started;
  arguments = redact (or_empty c.arguments);
  result_preview = [];
  is_error = none;
  content_length = none;
  error = none;
  started_at = now;
  finished_at = none;
  metadata = or_empty c.metadata;
}

-- The branch of a call that is known. A time of start is always set: it is kept.
abbrev pub restarted_tool :
    (Payload → Payload) → NodeAttempt → ToolStart → ToolExecution → ToolExecution
restarted_tool redact a c t = record t {
  tool_name = c.tool_name;
  round_no = c.round_no;
  arguments = redact (or_empty c.arguments);
  trace_id = trace_or c.trace_id a.trace_id;
  metadata = Dict.merge t.metadata (or_empty c.metadata);
}

unfoldable pub started_in :
    (Payload → Payload) → NodeAttempt → ToolStart → String → ℕ → NodeAttempt × ToolExecution
started_in redact a c fresh now = elim (find_tool_execution a c.tool_call_id) [
  | none ↦
      let t = new_tool redact a c fresh now in
      (record a { tool_executions = a.tool_executions ++ t ∷ [] }, t)
  | some old ↦
      let t = restarted_tool redact a c old in
      (
        record a {
          tool_executions = modify_first (is_tool_call c.tool_call_id) (λ _. t) a.tool_executions;
        },
        t,
      )
]

unfoldable pub record_tool_execution_started :
    (Payload → Payload)
    → RuntimeSession
    → String
    → ToolStart
    → String
    → ℕ
    → Result (RuntimeSession × ToolExecution)
unfolding started_in
record_tool_execution_started redact s execution_id c fresh now = do
  found ← find_attempt_by_id s execution_id
  let r = started_in redact found.0 c fresh now
  ok (with_attempt s execution_id r.0 now, r.1)

abbrev pub ended_status : Bool → ToolExecutionStatus
ended_status true = ToolExecutionStatus.failed
ended_status false = ToolExecutionStatus.succeeded

-- What a tool call came to.
pub record ToolEnd : Type 0 where
  pub is_error : Bool
  pub result_preview : Option Payload
  pub content_length : Option ℤ
  pub error : Option String

abbrev pub ended_tool : ToolExecution → ToolEnd → ℕ → ToolExecution
ended_tool t e now = record t {
  status = ended_status e.is_error;
  is_error = some e.is_error;
  result_preview = or_empty e.result_preview;
  content_length = e.content_length;
  error = e.error;
  finished_at = some now;
}

unfoldable pub record_tool_execution_completed :
    RuntimeSession → String → String → ToolEnd → ℕ → Result (RuntimeSession × ToolExecution)
record_tool_execution_completed s execution_id tool_call_id e now = do
  found ← find_attempt_by_id s execution_id
  t ← or_raise (find_tool_execution found.0 tool_call_id) execution_lease
  let a = record found.0 {
    tool_executions =
        modify_first (is_tool_call tool_call_id) (λ _. ended_tool t e now) found.0.tool_executions;
  }
  ok (with_attempt s execution_id a now, ended_tool t e now)
