-- ===== src/Examples/Events.antt =====
-- An event of an interaction that is recorded, and recorded again after other calls.
use hydra_mind.Prelude.{◌≡◌, refl, none, some, [], ok, str}
use hydra_mind.Prelude.Exec.{◌>>=◌}
use hydra_mind.Prelude.Dict
use hydra_mind.Control.Store.{SessionStore, get_session, put}
use hydra_mind.Control.InteractionLog.{
  InteractionLogRecord, InteractionLogEventKind, append_interaction_log,
  interaction_idempotency_key,
}
use hydra_mind.Control.Service.Records.{record_interaction_event}
use hydra_mind.Control.Service.Sessions.{create_session}
use hydra_mind.Control.History.Calls.{run}
use hydra_mind.Control.History.Events.{event_logged_once}
use hydra_mind.Examples.Data.{created}
use hydra_mind.Examples.Stores.{creation, later_calls, creation_stores}

abbrev turn_event : InteractionLogRecord
turn_event = record {
  id = "log-1";
  session_id = "s1";
  node_key = "plan";
  execution_id = "a1";
  trace_id = none;
  interaction_id = "i1";
  team_id = "t1";
  workspace_id = none;
  event_kind = InteractionLogEventKind.turn_completed;
  actor = some "ann";
  turn_index = some 0;
  content_preview = none;
  detail = [];
  created_at = 3;
}

-- The same event, delivered again with another id and text.
abbrev again : InteractionLogRecord
again = record turn_event { id = "log-2"; content_preview = some "done"; created_at = 8 }

event_works :
    (record_interaction_event (λ r. str r.id) "s1" turn_event 4 (run creation [])).0 ≡ ok turn_event
unfolding record_interaction_event append_interaction_log ◌>>=◌ get_session Dict.get run
    create_session put Dict.put
event_works = refl

abbrev after : SessionStore
after =
    run later_calls (record_interaction_event (λ r. str r.id) "s1" turn_event 4 (run creation [])).1

same_key : interaction_idempotency_key again ≡ interaction_idempotency_key turn_event
unfolding interaction_idempotency_key
same_key = refl

event_logged_once_example :
    record_interaction_event (λ r. str r.id) "s1" again 9 after ≡ (ok again, after)
event_logged_once_example =
    event_logged_once creation later_calls created (λ r. str r.id) (λ r. str r.id) turn_event again
      4 9 creation_stores event_works same_key
