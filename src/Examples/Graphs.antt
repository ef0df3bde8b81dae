-- ===== src/Examples/Graphs.antt =====
-- The sort of a chain of three nodes.
use hydra_mind.Prelude.{ℕ, String, ◌≡◌, refl, true, ok, List, [], ◌∷◌, arith, eq_iff, All, ◌≤◌}
use hydra_mind.Prelude.Sort.{mem_string}
use hydra_mind.Control.Workflow.{keys_of}
use hydra_mind.Orchestration.Graph.{topological, Edges, fill, add_nodes, drained}
use hydra_mind.Orchestration.Graph.Ending.{HasEntries, sort_loop_ends}
use hydra_mind.Control.Models.{WorkflowBlueprint}
use hydra_mind.Orchestration.Graph.Degrees.{occurs}
use hydra_mind.Orchestration.Graph.Schedule.{IsSchedule}
use hydra_mind.Orchestration.Graph.Topological.{topological-IsSchedule, schedulable_sorts}
use hydra_mind.Examples.Data.{chain, spec_of}
use hydra_mind.Prelude.{some, pos}

abbrev in_order : List String
in_order = "plan" ∷ "build" ∷ "test" ∷ []

chain_sorts : topological chain ≡ ok in_order
unfolding topological hydra_mind.Prelude.Dict.get hydra_mind.Prelude.Dict.put
chain_sorts = refl

topological-IsSchedule_example :
    IsSchedule chain.nodes in_order × All (λ k. mem_string k in_order ≡ true) (keys_of chain.nodes)
topological-IsSchedule_example = topological-IsSchedule chain chain_sorts

chain_distinct : (k : String) → occurs k (keys_of chain.nodes) ≤ 1
unfolding occurs
chain_distinct k = ground (
  arith,
  eq_iff "plan" k,
  eq_iff "build" k,
  eq_iff "test" k,
  eq_iff "plan" "build",
  eq_iff "plan" "test",
  eq_iff "build" "test",
)

schedulable_sorts_example : (o : List String) × (topological chain ≡ ok o)
schedulable_sorts_example =
    schedulable_sorts chain in_order chain_distinct topological-IsSchedule_example.0
      topological-IsSchedule_example.1

-- Two nodes that require one another.
abbrev circle : WorkflowBlueprint
circle = record {
  name = "w";
  version = "1";
  nodes = spec_of "a" ("b" ∷ []) ∷ spec_of "b" ("a" ∷ []) ∷ [];
}

abbrev circle_edges : Edges
circle_edges = record {
  in_degree = ("a", pos 1) ∷ ("b", pos 1) ∷ [];
  downstream = ("a", "b" ∷ []) ∷ ("b", "a" ∷ []) ∷ [];
}

circle_adds :
    add_nodes circle.nodes
      (record { in_degree = fill (pos 0) circle.nodes []; downstream = fill [] circle.nodes [] })
    ≡ ok circle_edges
unfolding add_nodes hydra_mind.Prelude.Dict.get hydra_mind.Prelude.Dict.put fill
circle_adds = refl

sort_loop_ends_example :
    ((order : List String) × (drained circle circle_edges ≡ some order))
    × All (HasEntries circle circle_edges) (keys_of circle.nodes)
sort_loop_ends_example = sort_loop_ends circle circle_edges circle_adds
