-- ===== src/Control/History/Safe.antt =====
-- Each method of the service keeps what `Extension` says.
use hydra_mind.Prelude.{ℕ, String, refl, Bool, Option, some, List, [], ◌∷◌, arith}
use hydra_mind.Prelude.Dict.{Payload}
use hydra_mind.Control.States.{SessionStatus}
use hydra_mind.Control.Models.{
  RuntimeSession, WorkflowBlueprint, WorkflowNodeSpec, WorkflowRevision,
}
use hydra_mind.Control.Store.Extension.{Kept, stay, put_new-Later}
use hydra_mind.Control.Store.Rules.{
  IsSafe, IsSafeFrom, IsHanding, safe_rules, IsSafe-then, IsSafeFrom-put_last, IsHanding-get,
  IsHanding-lift, IsHanding-put,
}
use hydra_mind.Control.History.Frames.{framed-Kept, add_nodes-IsFramed, revision-IsFramed}
use hydra_mind.Control.History.Changes.{metadata-IsFramed, transition-Kept}
use hydra_mind.Control.Service.Sessions.{
  create_session, session_transition, complete_session, fail_session, update_session_metadata,
  add_workflow_nodes, apply_workflow_revision, put_summary,
}

pub transition-IsSafe :
    (id : String) (to : SessionStatus) (now : ℕ) → IsSafe (session_transition id to now)
unfolding session_transition
transition-IsSafe id to now = search (safe_rules, transition-Kept)

pub metadata-IsSafe :
    (id : String) (metadata : Payload) (do_merge : Bool) (now : ℕ)
    → IsSafe (update_session_metadata id metadata do_merge now)
unfolding update_session_metadata
metadata-IsSafe id metadata do_merge now = search (safe_rules, metadata-IsFramed, framed-Kept)

pub add_nodes-IsSafe :
    (id : String) (nodes : List WorkflowNodeSpec) (now : ℕ)
    → IsSafe (add_workflow_nodes id nodes now)
unfolding add_workflow_nodes
add_nodes-IsSafe id nodes now = search (safe_rules, add_nodes-IsFramed, framed-Kept)

pub revision-IsSafe :
    (id : String) (revision : WorkflowRevision) (now : ℕ) (applied_at : String)
    → IsSafe (apply_workflow_revision id revision now applied_at)
unfolding apply_workflow_revision
revision-IsSafe id revision now applied_at = search (safe_rules, revision-IsFramed, framed-Kept)

pub create-IsSafe :
    (b : WorkflowBlueprint) (input metadata : Payload) (id : String) (now : ℕ)
    → IsSafe (create_session b input metadata id now)
unfolding create_session
create-IsSafe b input metadata id now = record { at = λ st w. put_new-Later _ st w refl }

transition-IsHanding :
    (id : String) (to : SessionStatus) (now : ℕ) → IsHanding (session_transition id to now)
unfolding session_transition
transition-IsHanding id to now = search (IsHanding-get, IsHanding-lift, IsHanding-put)

failed-Kept :
    (s : RuntimeSession) (error : Option String) → Kept s (record s { error_message = error })
failed-Kept s error = record {
  same_id = refl;
  statuses = stay;
  ledger = λ key r h. h;
  repairs = omega arith;
}

summarised-Kept :
    (s : RuntimeSession) (summary : Payload) → Kept s (record s { summary_output = summary })
summarised-Kept s summary = record {
  same_id = refl;
  statuses = stay;
  ledger = λ key r h. h;
  repairs = omega arith;
}

pub fail-IsSafe : (id error : String) (now : ℕ) → IsSafe (fail_session id error now)
unfolding fail_session
fail-IsSafe id error now =
    IsSafe-then (session_transition id SessionStatus.failed now) _
      (transition-IsSafe id SessionStatus.failed now)
      (transition-IsHanding id SessionStatus.failed now)
      (λ s. IsSafeFrom-put_last s _ (failed-Kept s (some error)))

summary-IsSafeFrom : (summary : Payload) (s : RuntimeSession) → IsSafeFrom s (put_summary summary s)
unfolding put_summary
summary-IsSafeFrom [] s = search safe_rules
summary-IsSafeFrom (x ∷ xs) s = IsSafeFrom-put_last s _ (summarised-Kept s (x ∷ xs))

pub complete-IsSafe :
    (id : String) (summary : Payload) (now : ℕ) → IsSafe (complete_session id summary now)
unfolding complete_session
complete-IsSafe id summary now =
    IsSafe-then (session_transition id SessionStatus.completed now) (put_summary summary)
      (transition-IsSafe id SessionStatus.completed now)
      (transition-IsHanding id SessionStatus.completed now) (summary-IsSafeFrom summary)
