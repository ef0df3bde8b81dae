-- ===== src/Orchestration/Graph.antt =====
-- orchestration/graph.py: the order of a blueprint, and the nodes of a session that are ready. The
-- dictionaries of the sort have an entry for each key of the blueprint, so `in_degree[k]` and
-- `downstream[k]` are read with a default that is never used: see Ending.
pub mod Degrees
pub mod Release
pub mod Schedule
pub mod Keyed
pub mod Sorting
pub mod Topological
pub mod Ending
use hydra_mind.Prelude.{
  ℕ, zero, suc, ◌+◌, ◌≤◌, ◌<◌, ℤ, pos, negsuc, String, Bool, true, false, not, ◌&&◌, ◌||◌, Option,
  none, some, List, [], ◌∷◌, ◌++◌, map, Result, ok, err, value_error, graph_cycle, ◌>>=◌, ◌>>◌,
  guard, if◌then◌else◌, ltb, leb, ◌==◌, length, all, str_eq,
}
use hydra_mind.Prelude.Dict
use hydra_mind.Prelude.Dict.{Dict}
use hydra_mind.Control.States.{NodeStatus}
use hydra_mind.Control.Models.{
  NodeState, RuntimeSession, WorkflowBlueprint, WorkflowNodeSpec, node_spec,
}

abbrev pub value_or {ℓ} : {A : Type ℓ} → A → Option A → A
value_or d none = d
value_or d (some a) = a

abbrev pub degree : Dict ℤ → String → ℤ
degree d k = value_or (pos 0) (Dict.get d k)

abbrev pub children_of : Dict (List String) → String → List String
children_of d k = value_or [] (Dict.get d k)

abbrev pub increment : ℤ → ℤ
increment (pos n) = pos (suc n)
increment (negsuc zero) = pos 0
increment (negsuc (suc n)) = negsuc n

abbrev pub decrement : ℤ → ℤ
decrement (pos zero) = negsuc 0
decrement (pos (suc n)) = pos n
decrement (negsuc n) = negsuc (suc n)

abbrev pub is_zero : ℤ → Bool
is_zero (pos zero) = true
is_zero (pos (suc n)) = false
is_zero (negsuc n) = false

-- `{n.key: v for n in nodes}`
unfoldable pub fill {ℓ} : {V : Type ℓ} → V → List WorkflowNodeSpec → Dict V → Dict V
fill v [] d = d
fill v (n ∷ ns) d = fill v ns (Dict.put d n.key v)

-- `{n.key: i for i, n in enumerate(nodes)}`
unfoldable pub declared_index : List WorkflowNodeSpec → ℕ → Dict ℕ → Dict ℕ
declared_index [] i d = d
declared_index (n ∷ ns) i d = declared_index ns (suc i) (Dict.put d n.key i)

-- `in_degree` and `downstream`
pub record Edges : Type 0 where
  pub in_degree : Dict ℤ
  pub downstream : Dict (List String)

-- One edge, `in_degree[key] += 1` and `downstream[req].append(key)`.
unfoldable pub add_edge : String → String → Edges → Edges
add_edge key req g = record {
  in_degree = Dict.put g.in_degree key (increment (degree g.in_degree key));
  downstream = Dict.put g.downstream req (children_of g.downstream req ++ key ∷ []);
}

-- The loop over `n.requires`.
unfoldable pub add_requires : String → List String → Edges → Result Edges
unfolding add_edge
add_requires key [] g = ok g
add_requires key (r ∷ rs) g =
    let rest = add_requires key rs (add_edge key r g) in
    if Dict.contains g.in_degree r then rest else err value_error

unfoldable pub add_nodes : List WorkflowNodeSpec → Edges → Result Edges
unfolding add_requires
add_nodes [] g = ok g
add_nodes (n ∷ ns) g = do next ← add_requires n.key n.requires g; add_nodes ns next

-- declared_index[k]
abbrev pub index_of : Dict ℕ → String → ℕ
index_of d k = value_or 0 (Dict.get d k)

-- `ready.insert(idx, child)`, at the first place with a greater index
unfoldable pub insert_ready : Dict ℕ → String → List String → List String
insert_ready index child [] = child ∷ []
insert_ready index child (k ∷ ks) =
    let rest = insert_ready index child ks in
    if ltb (index_of index child) (index_of index k) then child ∷ k ∷ ks else k ∷ rest

-- `sorted(keys, key=declared_index)`, which is stable
unfoldable pub insert_by_index : Dict ℕ → String → List String → List String
insert_by_index index x [] = x ∷ []
insert_by_index index x (y ∷ ys) =
    let rest = insert_by_index index x ys in
    if leb (index_of index x) (index_of index y) then x ∷ y ∷ ys else y ∷ rest

unfoldable pub sort_by_index : Dict ℕ → List String → List String
unfolding insert_by_index
sort_by_index index [] = []
sort_by_index index (x ∷ xs) = insert_by_index index x (sort_by_index index xs)

-- (k for k, d in in_degree.items() if d == 0)
unfoldable pub roots : Dict ℤ → List String
roots [] = []
roots ((k, d) ∷ ds) = let rest = roots ds in if is_zero d then k ∷ rest else rest

-- What the loop changes.
pub record Progress : Type 0 where
  pub in_degree : Dict ℤ
  pub ready : List String

-- The body of the inner loop, for one child.
unfoldable pub release : Dict ℕ → String → Progress → Progress
unfolding insert_ready
release index child s =
    let less = decrement (degree s.in_degree child) in
    record {
      in_degree = Dict.put s.in_degree child less;
      ready = if is_zero less then insert_ready index child s.ready else s.ready;
    }

unfoldable pub release_all : Dict ℕ → List String → Progress → Progress
unfolding release
release_all index [] s = s
release_all index (c ∷ cs) s = release_all index cs (release index c s)

-- The `while ready` loop, on fuel: what is in `order`.
unfoldable pub drain :
    ℕ → Dict ℕ → Dict (List String) → List String → Progress → Option (List String)
unfolding release_all
drain zero index downstream order s = none
drain (suc fuel) index downstream order s = elim s.ready [
  | [] ↦ some order
  | current ∷ rest ↦
      drain fuel index downstream (order ++ current ∷ [])
        (release_all index (children_of downstream current) (record s { ready = rest }))
]

-- The order that the first loops' result leads to. Each key joins `ready` at most once: the fuel is
-- enough.
unfoldable pub drained : WorkflowBlueprint → Edges → Option (List String)
unfolding drain roots sort_by_index declared_index
drained b g =
    let index = declared_index b.nodes 0 [] in
    drain (suc (length g.in_degree)) index g.downstream []
      (record { in_degree = g.in_degree; ready = sort_by_index index (roots g.in_degree) })

-- The test on the length of the order.
abbrev pub complete_order : ℕ → Option (List String) → Result (List String)
complete_order n none = err graph_cycle
complete_order n (some order) = if length order == n then ok order else err graph_cycle

-- `_topological`
unfoldable pub topological : WorkflowBlueprint → Result (List String)
unfolding add_nodes fill drained
topological b = do
  g ←
      add_nodes b.nodes
        (record { in_degree = fill (pos 0) b.nodes []; downstream = fill [] b.nodes [] })
  complete_order (length b.nodes) (drained b g)

abbrev pub is_completed : Option NodeState → Bool
is_completed none = false
is_completed (some n) = elim n.status [ NodeStatus.completed ↦ true | _ ↦ false ]

abbrev pub is_queued : Option NodeState → Bool
is_queued none = false
is_queued (some n) = elim n.status [ NodeStatus.queued ↦ true | _ ↦ false ]

-- The loop of `ready_nodes`: only the specification of a queued node is looked up.
unfoldable pub ready_among : WorkflowBlueprint → RuntimeSession → List String → Result (List String)
unfolding node_spec
ready_among b s [] = ok []
ready_among b s (key ∷ keys) = elim (is_queued (Dict.get s.nodes key)) [
  | false ↦ ready_among b s keys
  | true ↦ (do
    spec ← node_spec b key
    rest ← ready_among b s keys
    ok (if all (λ r. is_completed (Dict.get s.nodes r)) spec.requires then key ∷ rest else rest))
]

-- `ready_nodes` of the graph of a blueprint, whose order was made with it
unfoldable pub ready_nodes : WorkflowBlueprint → RuntimeSession → Result (List String)
unfolding topological ready_among
ready_nodes b s = do order ← topological b; ready_among b s order
