-- ===== src/Control/Intents.antt =====
-- control/models.py and control/control_decisions.py: what the control plane is asked to apply, and
-- its record of what came of it.
use hydra_mind.Prelude.{
  String, Bool, true, false, not, ◌&&◌, Option, none, some, List, [], ◌∷◌, Result, ok, value_error,
  ◌>>◌, guard, raise_if, is_some, truthy, Json, Items, nil, cons, arr,
}
use hydra_mind.Prelude.Dict
use hydra_mind.Prelude.Dict.{Payload}
use hydra_mind.Control.States.{NodeStatus, ApplyIntentKind}
use hydra_mind.Control.Models.{Gate, WorkflowRevision}

pub data RuntimeDecisionKind : Type 0 where
  continue await_gate complete fail : RuntimeDecisionKind

pub record RuntimeDecision : Type 0 where
  pub kind : RuntimeDecisionKind
  pub session_id : String
  pub node_key : String
  pub node_status : NodeStatus
  pub gate : Option Gate
  pub error : Option String
  pub execution_id : Option String

-- The verifier results and the feedback are kept as what `model_dump` gives for them.
pub record AgentReport : Type 0 where
  pub node_key : String
  pub agent_id : String
  pub harness_id : Option String
  pub execution_id : Option String
  pub trace_id : Option String
  pub lease_token : Option String
  pub output : Payload
  pub boundary_event : Option String
  pub gate_triggers : List String
  pub verifier_results : List Json
  pub feedback : List Json
  pub error : Option String

unfoldable pub items_of : List Json → Items
items_of [] = nil
items_of (j ∷ js) = cons j (items_of js)

-- `if items: persisted[key] = [...]`
unfoldable pub put_items : Payload → String → List Json → Payload
unfolding items_of
put_items p key [] = p
put_items p key (j ∷ js) = Dict.put p key (arr (items_of (j ∷ js)))

unfoldable pub persisted_output : AgentReport → Payload
unfolding put_items
persisted_output r =
    put_items (put_items r.output "_verifier_results" r.verifier_results) "_feedback" r.feedback

pub record ApplyIntent : Type 0 where
  pub kind : ApplyIntentKind
  pub node_key : Option String
  pub output : Payload
  pub error : Option String
  pub gate : Option Gate
  pub workflow_revision : Option WorkflowRevision
  pub reason : String
  pub authorization : Payload
  pub metadata : Payload

abbrev is_pause : ApplyIntentKind → Bool
is_pause ApplyIntentKind.pause = true
is_pause _ = false

abbrev is_fail : ApplyIntentKind → Bool
is_fail ApplyIntentKind.fail = true
is_fail _ = false

-- The rest of `_validate_shape`, for an intent on a node.
abbrev validate_node_intent : ApplyIntent → Result ApplyIntent
validate_node_intent i = do
  guard (is_some i.node_key) value_error
  raise_if (is_pause i.kind && not (is_some i.gate)) value_error
  raise_if (is_fail i.kind && not (truthy i.error)) value_error
  raise_if (is_some i.workflow_revision) value_error
  ok i

-- `ApplyIntent(...)`, with what `_validate_shape` refuses
unfoldable pub make_intent : ApplyIntent → Result ApplyIntent
make_intent i = elim i.kind [
  | ApplyIntentKind.workflow_revision ↦ (do
    guard (is_some i.workflow_revision) value_error
    raise_if (is_some i.node_key) value_error
    ok i)
  | _ ↦ validate_node_intent i
]

-- An intent of the kind on a node, with the defaults of the fields.
abbrev node_intent : ApplyIntentKind → String → Option Gate → Payload → ApplyIntent
node_intent kind node_key gate authorization = record {
  kind = kind;
  node_key = some node_key;
  output = [];
  error = none;
  gate = gate;
  workflow_revision = none;
  reason = "";
  authorization = authorization;
  metadata = [];
}

unfoldable pub complete_intent : String → Payload → Option Gate → Payload → Result ApplyIntent
unfolding make_intent
complete_intent node_key output gate authorization =
    make_intent (record (node_intent ApplyIntentKind.complete node_key gate authorization) {
      output = output;
    })

unfoldable pub pause_intent : String → Gate → Payload → Result ApplyIntent
unfolding make_intent
pause_intent node_key gate authorization =
    make_intent (node_intent ApplyIntentKind.pause node_key (some gate) authorization)

unfoldable pub fail_intent : String → String → Option Gate → Payload → Result ApplyIntent
unfolding make_intent
fail_intent node_key error gate authorization =
    make_intent
      (record (node_intent ApplyIntentKind.fail node_key gate authorization) { error = some error })

unfoldable pub requeue_intent : String → String → Option Gate → Payload → Result ApplyIntent
unfolding make_intent
requeue_intent node_key reason gate authorization =
    make_intent
      (record (node_intent ApplyIntentKind.requeue node_key gate authorization) { reason = reason })

unfoldable pub graph_update : WorkflowRevision → Payload → Payload → Result ApplyIntent
unfolding make_intent
graph_update revision authorization metadata = make_intent (record {
  kind = ApplyIntentKind.workflow_revision;
  node_key = none;
  output = [];
  error = none;
  gate = none;
  workflow_revision = some revision;
  reason = "";
  authorization = authorization;
  metadata = metadata;
})
