-- ===== src/Control/Service/Sessions.antt =====
-- `SessionService`: the session's own status, metadata and graph.
use hydra_mind.Prelude.{ℕ, String, Bool, List, [], ◌∷◌, some}
use hydra_mind.Prelude.Exec.{◌>>=◌, pure, lift}
use hydra_mind.Prelude.Dict.{Payload}
use hydra_mind.Control.States.{SessionStatus}
use hydra_mind.Control.Models.{
  RuntimeSession, WorkflowBlueprint, WorkflowNodeSpec, WorkflowRevision,
}
use hydra_mind.Control.Store.{Action, put, get_session}
use hydra_mind.Control.Lifecycle
use hydra_mind.Control.Lifecycle.{create_runtime_session, transition_session}
use hydra_mind.Control.Workflow

unfoldable pub create_session :
    WorkflowBlueprint → Payload → Payload → String → ℕ → Action RuntimeSession
unfolding create_runtime_session
create_session b input_payload metadata id now =
    put (create_runtime_session b input_payload metadata id now)

-- `_session_transition`
unfoldable pub session_transition : String → SessionStatus → ℕ → Action RuntimeSession
session_transition session_id to now = do
  s ← get_session session_id
  moved ← lift (transition_session s to now)
  put moved

abbrev pub mark_session_running : String → ℕ → Action RuntimeSession
mark_session_running session_id = session_transition session_id SessionStatus.running

abbrev pub mark_session_waiting_gate : String → ℕ → Action RuntimeSession
mark_session_waiting_gate session_id = session_transition session_id SessionStatus.waiting_gate

abbrev pub mark_session_resuming : String → ℕ → Action RuntimeSession
mark_session_resuming session_id = session_transition session_id SessionStatus.resuming

abbrev pub cancel_session : String → ℕ → Action RuntimeSession
cancel_session session_id = session_transition session_id SessionStatus.cancelled

-- `if summary: ...`
unfoldable pub put_summary : Payload → RuntimeSession → Action RuntimeSession
put_summary [] s = pure s
put_summary (x ∷ xs) s = put (record s { summary_output = x ∷ xs })

unfoldable pub complete_session : String → Payload → ℕ → Action RuntimeSession
complete_session session_id summary now = do
  s ← session_transition session_id SessionStatus.completed now
  put_summary summary s

unfoldable pub fail_session : String → String → ℕ → Action RuntimeSession
fail_session session_id error now = do
  s ← session_transition session_id SessionStatus.failed now
  put (record s { error_message = some error })

unfoldable pub update_session_metadata : String → Payload → Bool → ℕ → Action RuntimeSession
update_session_metadata session_id metadata do_merge now = do
  s ← get_session session_id
  put (Lifecycle.update_session_metadata s metadata do_merge now)

unfoldable pub add_workflow_nodes : String → List WorkflowNodeSpec → ℕ → Action RuntimeSession
add_workflow_nodes session_id nodes now = do
  s ← get_session session_id
  t ← lift (Lifecycle.add_workflow_nodes s nodes now)
  put t

unfoldable pub apply_workflow_revision :
    String → WorkflowRevision → ℕ → String → Action RuntimeSession
apply_workflow_revision session_id revision now applied_at = do
  s ← get_session session_id
  r ← lift (Workflow.apply_workflow_revision s revision now applied_at)
  put r.0
