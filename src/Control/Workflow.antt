-- ===== src/Control/Workflow.antt =====
-- control/session_workflow.py: a workflow revision on a live session.
pub mod Visit
pub mod Descendants
use hydra_mind.Prelude.{
  ℕ, zero, suc, ◌+◌, String, Bool, true, false, not, ◌&&◌, Option, none, some, List, [], ◌∷◌, ◌++◌,
  map, Result, ok, err, value_error, invalid_transition, ◌>>=◌, ◌>>◌, guard, raise_if, str_eq,
  if◌then◌else◌, length, all, ltb, Json, Items, nil, cons, str, arr, obj, field, end,
}
use hydra_mind.Prelude.Dict
use hydra_mind.Prelude.Dict.{Dict, Payload}
use hydra_mind.Prelude.Sort.{mem_string, difference, to_set, union, sort_strings}
use hydra_mind.Control.States.{NodeStatus}
use hydra_mind.Control.Models.{
  NodeState, RuntimeSession, WorkflowBlueprint, WorkflowNodeSpec, WorkflowRevision, new_node,
}
use hydra_mind.Control.NodeLifecycle.{node_transition}

abbrev pub keys_of : List WorkflowNodeSpec → List String
keys_of = map (λ n. n.key)

-- The first loop of `validate_blueprint`.
unfoldable pub distinct_keys : List String → List WorkflowNodeSpec → Result (Unit {0})
unfolding mem_string
distinct_keys seen [] = ok tt
distinct_keys seen (n ∷ ns) =
    let rest = distinct_keys (n.key ∷ seen) ns in
    if mem_string n.key seen then err value_error else rest

unfoldable pub validate_blueprint : WorkflowBlueprint → Result (Unit {0})
unfolding distinct_keys mem_string
validate_blueprint b = do
  distinct_keys [] b.nodes
  guard (all (λ n. all (λ r. mem_string r (keys_of b.nodes)) n.requires) b.nodes) value_error

unfoldable pub blueprint_keys : WorkflowBlueprint → List String
unfolding to_set
blueprint_keys b = to_set (keys_of b.nodes)

-- `children[required].append(node.key)` for each entry of `requires` that is `current`
unfoldable pub child_entries : String → String → List String → List String
child_entries current key [] = []
child_entries current key (r ∷ rs) =
    let rest = child_entries current key rs in if str_eq r current then key ∷ rest else rest

-- children.get(current, []): what the two loops of `descendant_keys` collect under `current`
unfoldable pub children : List WorkflowNodeSpec → String → List String
unfolding child_entries
children [] current = []
children (n ∷ ns) current = child_entries current n.key n.requires ++ children ns current

-- The inner loop: a child that is new joins the descendants and the frontier.
unfoldable pub visit : List String → List String → List String → List String × List String
unfolding mem_string
visit [] descendants frontier = (descendants, frontier)
visit (c ∷ cs) descendants frontier =
    let known = visit cs descendants frontier in
    let fresh = visit cs (c ∷ descendants) (frontier ++ c ∷ []) in
    if mem_string c descendants then known else fresh

-- The `while frontier` loop, on fuel.
unfoldable pub descend : ℕ → List WorkflowNodeSpec → List String → List String → List String
unfolding visit children
descend zero nodes descendants frontier = descendants
descend (suc fuel) nodes descendants [] = descendants
descend (suc fuel) nodes descendants (current ∷ frontier) =
    let next = visit (children nodes current) descendants frontier in
    descend fuel nodes next.0 next.1

-- Each round takes one key off the frontier, and each key of the blueprint joins it at most once.
unfoldable pub descendant_keys : WorkflowBlueprint → List String → List String
unfolding descend
descendant_keys b roots = descend (suc (length roots + length b.nodes)) b.nodes [] roots

unfoldable pub mark_node_stale_for_revision : NodeState → ℕ → Result NodeState
unfolding node_transition
mark_node_stale_for_revision n now = elim n.status [
  | NodeStatus.stale ↦ ok n
  | NodeStatus.running ↦ err invalid_transition
  | NodeStatus.pending_gate ↦ err invalid_transition
  | NodeStatus.failed ↦ err invalid_transition
  | NodeStatus.needs_revision ↦ (do
    back ← node_transition n NodeStatus.queued now
    node_transition back NodeStatus.stale now)
  | _ ↦ node_transition n NodeStatus.stale now
]

unfoldable pub requeue_node_for_revision : NodeState → ℕ → Result NodeState
unfolding node_transition
requeue_node_for_revision n now = elim n.status [
  | NodeStatus.queued ↦ ok n
  | NodeStatus.running ↦ err invalid_transition
  | NodeStatus.pending_gate ↦ ok n
  | NodeStatus.failed ↦ err invalid_transition
  | NodeStatus.needs_revision ↦ node_transition n NodeStatus.queued now
  | NodeStatus.stale ↦ node_transition n NodeStatus.queued now
  | _ ↦ (do
    gone ← node_transition n NodeStatus.stale now
    node_transition gone NodeStatus.queued now)
]

-- `node = session.nodes.get(key)`; if there is one, it is changed by `f`.
abbrev change_node :
    Dict NodeState
    → String
    → (NodeState → Result NodeState)
    → Option NodeState
    → Result (Dict NodeState)
change_node d key f none = ok d
change_node d key f (some n) = do m ← f n; ok (Dict.put d key m)

unfoldable pub for_nodes :
    (NodeState → Result NodeState) → List String → Dict NodeState → Result (Dict NodeState)
for_nodes f [] d = ok d
for_nodes f (key ∷ ks) d = do next ← change_node d key f (Dict.get d key); for_nodes f ks next

abbrev added_node : Dict NodeState → String → ℕ → Option NodeState → Result (Dict NodeState)
added_node d key now none = ok (Dict.put d key (new_node key now))
added_node d key now (some n) = do m ← requeue_node_for_revision n now; ok (Dict.put d key m)

unfoldable pub add_revised_nodes : List String → Dict NodeState → ℕ → Result (Dict NodeState)
unfolding requeue_node_for_revision new_node
add_revised_nodes [] d now = ok d
add_revised_nodes (key ∷ ks) d now = do
  next ← added_node d key now (Dict.get d key)
  add_revised_nodes ks next now

pub record WorkflowRevisionSummary : Type 0 where
  pub added_node_keys : List String
  pub removed_node_keys : List String
  pub changed_node_keys : List String
  pub requeued_node_keys : List String

-- The four key sets of a revision, sorted.
unfoldable pub revision_summary : WorkflowRevision → WorkflowRevisionSummary
unfolding blueprint_keys difference union to_set descendant_keys sort_strings
revision_summary r =
    let current = blueprint_keys r.current_blueprint in
    let revised = blueprint_keys r.revised_blueprint in
    let changed = to_set r.changed_node_keys in
    let removed = difference current revised in
    let requeued =
      difference (union changed (descendant_keys r.current_blueprint (union changed removed)))
        removed in
    record {
      added_node_keys = sort_strings (difference revised current);
      removed_node_keys = sort_strings removed;
      changed_node_keys = sort_strings changed;
      requeued_node_keys = sort_strings requeued;
    }

-- not (changed_keys - (current_keys & revised_keys))
abbrev changed_known : WorkflowRevision → Bool
changed_known r =
    all
      (λ k.
        mem_string k (blueprint_keys r.current_blueprint)
        && mem_string k (blueprint_keys r.revised_blueprint))
      r.changed_node_keys

-- list(texts), as JSON
unfoldable pub string_items : List String → Items
string_items [] = nil
string_items (x ∷ xs) = cons (str x) (string_items xs)

-- [*items, j]
unfoldable pub append_item : Items → Json → Items
append_item nil j = cons j nil
append_item (cons x xs) j = cons x (append_item xs j)

-- `revision_record`; `applied_at` is `now.isoformat()`
unfoldable pub revision_record : WorkflowRevision → WorkflowRevisionSummary → String → Json
unfolding string_items
revision_record r w applied_at = obj (
    field "reason" (str r.reason) (
      field "feedback_refs" (arr (string_items r.feedback_refs)) (
        field "added_node_keys" (arr (string_items w.added_node_keys)) (
          field "removed_node_keys" (arr (string_items w.removed_node_keys)) (
            field "changed_node_keys" (arr (string_items w.changed_node_keys)) (
              field "requeued_node_keys" (arr (string_items w.requeued_node_keys))
                (field "applied_at" (str applied_at) end)))))))

-- The history that is there, if it is a list.
abbrev history_of : Option Json → Items
history_of (some (arr xs)) = xs
history_of _ = nil

-- {**session.metadata, **revision.metadata, "workflow_revisions": [*history, revision_record]}
unfoldable pub revised_metadata :
    Payload → WorkflowRevision → WorkflowRevisionSummary → String → Payload
unfolding revision_record append_item
revised_metadata metadata r w applied_at =
    Dict.put (Dict.merge metadata r.metadata) "workflow_revisions" (
      arr (
        append_item (history_of (Dict.get metadata "workflow_revisions"))
          (revision_record r w applied_at)))

unfoldable pub apply_workflow_revision :
    RuntimeSession
    → WorkflowRevision
    → ℕ
    → String
    → Result (RuntimeSession × WorkflowRevisionSummary)
unfolding validate_blueprint blueprint_keys revision_summary add_revised_nodes for_nodes
    mark_node_stale_for_revision requeue_node_for_revision
apply_workflow_revision s r now applied_at = do
  validate_blueprint r.current_blueprint
  validate_blueprint r.revised_blueprint
  guard (changed_known r) value_error
  let summary = revision_summary r
  added ← add_revised_nodes summary.added_node_keys s.nodes now
  removed ← for_nodes (λ n. mark_node_stale_for_revision n now) summary.removed_node_keys added
  requeued ← for_nodes (λ n. requeue_node_for_revision n now) summary.requeued_node_keys removed
  ok (
    record s {
      nodes = requeued;
      metadata = revised_metadata s.metadata r summary applied_at;
      updated_at = now;
    },
    summary,
  )
