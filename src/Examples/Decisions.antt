-- ===== src/Examples/Decisions.antt =====
-- A session that is created, and a report on its first node.
use hydra_mind.Prelude.{◌≡◌, refl, none, [], ◌∷◌, ok, List}
use hydra_mind.Control.States.{NodeStatus}
use hydra_mind.Control.Intents.{AgentReport, RuntimeDecision, RuntimeDecisionKind}
use hydra_mind.Control.Store.{SessionStore}
use hydra_mind.Control.Reports.{open_runtime_decision}
use hydra_mind.Control.History.Calls.{Call, run}
use hydra_mind.Control.History.Decisions.{IsDecided, IsRecorded, decided-IsRecorded}
use hydra_mind.Examples.Data.{chain}
use hydra_mind.Examples.Reports.{report_on, ids}

abbrev history : List Call
history = Call.create chain [] [] "s1" 0 ∷ []

abbrev finished : AgentReport
finished = record (report_on "plan") { execution_id = none; lease_token = none }

abbrev decision : RuntimeDecision
decision = record {
  kind = RuntimeDecisionKind.continue;
  session_id = "s1";
  node_key = "plan";
  node_status = NodeStatus.completed;
  gate = none;
  error = none;
  execution_id = none;
}

abbrev after : SessionStore
after = (open_runtime_decision none none "s1" finished ids (λ i. i) (run history [])).1

decides :
    open_runtime_decision none none "s1" finished ids (λ i. i) (run history [])
    ≡ (ok decision, after)
unfolding open_runtime_decision hydra_mind.Prelude.Exec.◌>>=◌ hydra_mind.Control.Store.get_session
    hydra_mind.Prelude.Dict.get run hydra_mind.Control.Service.Sessions.create_session
    hydra_mind.Control.Store.put hydra_mind.Prelude.Dict.put
    hydra_mind.Control.Service.Sessions.session_transition
    hydra_mind.Control.Lifecycle.transition_session
    hydra_mind.Control.Service.Nodes.node_only_transition
    hydra_mind.Control.NodeLifecycle.node_transition
    hydra_mind.Control.Reports.default_apply_deriver
    hydra_mind.Control.NodeLifecycle.complete_running_attempt
decides = refl

decided-IsRecorded_example : IsRecorded "s1" decision after
decided-IsRecorded_example =
    decided-IsRecorded history "s1" decision after
      (IsDecided.by_report none none finished ids (λ i. i) decides)
