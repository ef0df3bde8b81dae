-- ===== src/Examples/Reports.antt =====
-- A report of an agent that lost its lease, and one for a node that is not there.
use hydra_mind.Prelude.{
  ℕ, String, ◌≡◌, refl, none, some, [], ◌∷◌, err, execution_lease, runtime_error, inr, inl,
}
use hydra_mind.Control.Intents.{AgentReport}
use hydra_mind.Control.Store.{SessionStore}
use hydra_mind.Control.Reports.{FreshIds, open_runtime_decision}
use hydra_mind.Control.Reports.Refused.{stale_report_refused}
use hydra_mind.Examples.Data.{leased_attempt, node_with, session_with}

abbrev pub report_on : String → AgentReport
report_on node_key = record {
  node_key = node_key;
  agent_id = "a";
  harness_id = none;
  execution_id = some "a1";
  trace_id = none;
  lease_token = some "old";
  output = [];
  boundary_event = none;
  gate_triggers = [];
  verifier_results = [];
  feedback = [];
  error = none;
}

abbrev pub ids : FreshIds
ids = record { attempt_id = "a2"; report_attempt_id = "a3"; gate_id = "g1" }

abbrev stored : SessionStore
stored = ("s1", session_with leased_attempt) ∷ []

stale_report_refused_example :
    open_runtime_decision none none "s1" (report_on "plan") ids (λ i. i) stored
    ≡ (err execution_lease, stored)
unfolding hydra_mind.Prelude.Dict.get hydra_mind.Control.Execution.find_attempt
    hydra_mind.Control.Execution.has_execution_lease_metadata
    hydra_mind.Control.Reports.Refused.holds_lease hydra_mind.Prelude.strip
stale_report_refused_example =
    stale_report_refused none none "s1" (report_on "plan") ids (λ i. i) stored
      (session_with leased_attempt) refl (node_with leased_attempt) leased_attempt refl refl refl
      refl refl refl refl
