-- ===== src/Examples/Data.antt =====
-- The data of the runs: a session with one running node, a team of three and an interaction.
use hydra_mind.Prelude.{String, none, some, [], ◌∷◌, List}
use hydra_mind.Control.States.{SessionStatus, NodeStatus, AttemptStatus}
use hydra_mind.Control.Models.{
  NodeAttempt, NodeState, RuntimeSession, WorkflowNodeSpec, WorkflowBlueprint,
}
use hydra_mind.Control.Interactions.{DurableInteraction, DurableTurn}
use hydra_mind.Kernel.Contracts.{Interaction, InteractionStatus, TurnStatus}
use hydra_mind.Mas.Contracts.{
  CollaborationProtocol, CollaborationMode, CollaborationTopology, AggregationStrategy,
  ArbitrationStrategy, TeamSpec,
}

abbrev pub first_attempt : NodeAttempt
first_attempt = record {
  id = "a1";
  node_key = "plan";
  attempt_no = 1;
  trace_id = none;
  status = AttemptStatus.running;
  started_at = 0;
  finished_at = none;
  output = [];
  error = none;
  tool_executions = [];
  lease_token = none;
  lease_owner = none;
  last_heartbeat_at = none;
  lease_expires_at = none;
}

-- Under a lease of one second from the time 0.
abbrev pub leased_attempt : NodeAttempt
leased_attempt = record first_attempt {
  lease_token = some "tok";
  lease_owner = some "worker";
  last_heartbeat_at = some 0;
  lease_expires_at = some 1000000;
}

abbrev pub node_with : NodeAttempt → NodeState
node_with a = record {
  key = "plan";
  status = NodeStatus.running;
  attempts = a ∷ [];
  gates = [];
  updated_at = 0;
}

abbrev pub session_with : NodeAttempt → RuntimeSession
session_with a = record {
  id = "s1";
  workflow_name = "w";
  workflow_version = "1";
  version = 1;
  status = SessionStatus.running;
  nodes = ("plan", node_with a) ∷ [];
  input_payload = [];
  summary_output = [];
  error_message = none;
  created_at = 0;
  updated_at = 0;
  metadata = [];
  auto_repair_attempts_used = 0;
  processed_idempotency_keys = [];
  durable_interactions = [];
}

abbrev pub spec_of : String → List String → WorkflowNodeSpec
spec_of key requires = record {
  key = key;
  role = "worker";
  description = "";
  requires = requires;
  config = [];
}

-- `test` requires `build`, which requires `plan`.
abbrev pub chain : WorkflowBlueprint
chain = record {
  name = "w";
  version = "1";
  nodes = spec_of "plan" [] ∷ spec_of "build" ("plan" ∷ []) ∷ spec_of "test" ("build" ∷ []) ∷ [];
}

abbrev pub empty_blueprint : WorkflowBlueprint
empty_blueprint = record { name = "w"; version = "1"; nodes = [] }

-- What `create_session` stores for the empty blueprint.
abbrev pub created : RuntimeSession
created = record (session_with first_attempt) { status = SessionStatus.queued; nodes = [] }

abbrev pub turn_done : DurableTurn
turn_done = record {
  id = "turn-i1-0";
  interaction_id = "i1";
  turn_index = 0;
  agent_id = "a";
  status = TurnStatus.completed;
  created_at = 0;
  completed_at = some 0;
  turn_lease_token = none;
  turn_lease_owner = none;
  turn_lease_expires_at = none;
  last_heartbeat_at = none;
}

abbrev pub durable : DurableInteraction
durable = record {
  id = "i1";
  session_id = "s1";
  node_key = "plan";
  execution_id = "a1";
  team_id = "t1";
  protocol_mode = "team";
  topology = "broadcast";
  member_ids = "a" ∷ "b" ∷ [];
  workspace_id = none;
  status = InteractionStatus.running;
  turns = turn_done ∷ [];
  messages = [];
  outcome = none;
  version = 1;
  recovered_from_turn_index = none;
  error = none;
  created_at = 0;
  updated_at = 0;
}

abbrev pub session_in : DurableInteraction → RuntimeSession
session_in i = record (session_with first_attempt) { durable_interactions = ("i1", i) ∷ [] }

abbrev pub led : CollaborationProtocol
led = record {
  mode = CollaborationMode.team;
  topology = CollaborationTopology.coordinator;
  aggregation = AggregationStrategy.coordinator_summary;
  arbitration = ArbitrationStrategy.coordinator;
  coordinator_id = some "lead";
  vote_options = [];
  metadata = [];
}

abbrev pub three : Interaction
three = record {
  id = "i1";
  team_id = "t1";
  member_ids = "lead" ∷ "a" ∷ "b" ∷ [];
  protocol = led;
  messages = [];
  turns = [];
  status = InteractionStatus.running;
  workspace_id = none;
  metadata = [];
}

abbrev pub led_team : TeamSpec
led_team = record {
  id = "t1";
  members = [];
  protocol = led;
  workspace = none;
  tools = [];
  metadata = [];
}
