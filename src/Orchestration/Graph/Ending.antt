-- ===== src/Orchestration/Graph/Ending.antt =====
-- The loop of the sort ends, and each of its look-ups finds an entry.
use hydra_mind.Prelude.{
  ℕ, suc, pos, String, ◌≡◌, true, some, List, [], ◌∷◌, arith, eq_refl, ok, >>=-eq-ok, ok-injective,
  Bool-cases, inl, inr, All, str_eq,
}
use hydra_mind.Prelude.Dict.{Dict, put, contains, get-put}
use hydra_mind.Prelude.Sort.{mem_string}
use hydra_mind.Control.Models.{WorkflowNodeSpec, WorkflowBlueprint}
use hydra_mind.Control.Workflow.{keys_of}
use hydra_mind.Orchestration.Graph.{
  Edges, fill, declared_index, add_edge, add_requires, add_nodes, drained,
}
use hydra_mind.Orchestration.Graph.Sorting.{counted-IsSorted}

module _ {V : Type 0} where
  put-contains :
      (d : Dict V) (k x : String) (v : V) → contains d x ≡ true → contains (put d k v) x ≡ true
  put-contains d k x v h = ground (arith, get-put d k x v, h)

  put-contains_self : (d : Dict V) (k : String) (v : V) → contains (put d k v) k ≡ true
  put-contains_self d k v = ground (arith, get-put d k k v, eq_refl k)

  fill-keeps :
      (v : V) (ns : List WorkflowNodeSpec) (d : Dict V) (x : String)
      → contains d x ≡ true
      → contains (fill v ns d) x ≡ true
  unfolding fill
  fill-keeps v [] d x h = h
  fill-keeps v (n ∷ ns) d x h = fill-keeps v ns (put d n.key v) x (put-contains d n.key x v h)

  fill-contains :
      (v : V) (ns : List WorkflowNodeSpec) (d : Dict V) (x : String)
      → mem_string x (keys_of ns) ≡ true
      → contains (fill v ns d) x ≡ true
  unfolding fill mem_string
  fill-contains v [] d x m = cc m
  fill-contains v (n ∷ ns) d x m = elim (Bool-cases (str_eq n.key x)) [
    | inl same ↦ fill-keeps v ns (put d n.key v) x (ground (arith, get-put d n.key x v, same))
    | inr other ↦ fill-contains v ns (put d n.key v) x (ground arith)
  ]

index-keeps :
    (ns : List WorkflowNodeSpec) (i : ℕ) (d : Dict ℕ) (x : String)
    → contains d x ≡ true
    → contains (declared_index ns i d) x ≡ true
unfolding declared_index
index-keeps [] i d x h = h
index-keeps (n ∷ ns) i d x h = index-keeps ns (suc i) (put d n.key i) x (put-contains d n.key x i h)

index-contains :
    (ns : List WorkflowNodeSpec) (i : ℕ) (d : Dict ℕ) (x : String)
    → mem_string x (keys_of ns) ≡ true
    → contains (declared_index ns i d) x ≡ true
unfolding declared_index mem_string
index-contains [] i d x m = cc m
index-contains (n ∷ ns) i d x m = elim (Bool-cases (str_eq n.key x)) [
  | inl same ↦ index-keeps ns (suc i) (put d n.key i) x (ground (arith, get-put d n.key x i, same))
  | inr other ↦ index-contains ns (suc i) (put d n.key i) x (ground arith)
]

-- Both dictionaries of edges have an entry for the key.
abbrev HasBoth : String → Edges → Type 0
HasBoth x g = (contains g.in_degree x ≡ true) × (contains g.downstream x ≡ true)

add_requires-HasBoth :
    (key x : String) (rs : List String) (g g' : Edges)
    → HasBoth x g
    → add_requires key rs g ≡ ok g'
    → HasBoth x g'
unfolding add_requires add_edge
add_requires-HasBoth key x [] g g' b h = rw (← ok-injective h) b
add_requires-HasBoth key x (r ∷ rs) g g' b h =
    add_requires-HasBoth key x rs (add_edge key r g) g'
      (put-contains g.in_degree key x _ b.0, put-contains g.downstream r x _ b.1) (ground arith)

add_nodes-HasBoth :
    (x : String) (ns : List WorkflowNodeSpec) (g g' : Edges)
    → HasBoth x g
    → add_nodes ns g ≡ ok g'
    → HasBoth x g'
unfolding add_nodes
add_nodes-HasBoth x [] g g' b h = rw (← ok-injective h) b
add_nodes-HasBoth x (n ∷ ns) g g' b h =
    let (mid, h1, h2) = >>=-eq-ok (add_requires n.key n.requires g) (add_nodes ns) h in
    add_nodes-HasBoth x ns mid g' (add_requires-HasBoth n.key x n.requires g mid b h1) h2

-- An entry for the key in each dictionary that the loop reads.
abbrev pub HasEntries : WorkflowBlueprint → Edges → String → Type 0
HasEntries b g x =
    (contains g.in_degree x ≡ true)
    × (contains g.downstream x ≡ true)
    × (contains (declared_index b.nodes 0 []) x ≡ true)

-- Take a blueprint whose requirements are all keys of it, so that the first loops of the sort give
-- dictionaries. Then the loop on `ready` ends by its own test with an order, also when the blueprint
-- has a cycle, and each dictionary that it reads has an entry for every key of the blueprint.
pub sort_loop_ends :
    (b : WorkflowBlueprint) (g : Edges)
    → add_nodes b.nodes
        (record { in_degree = fill (pos 0) b.nodes []; downstream = fill [] b.nodes [] })
      ≡ ok g
    → ((order : List String) × (drained b g ≡ some order)) × All (HasEntries b g) (keys_of b.nodes)
unfolding mem_string
sort_loop_ends b g h =
    let w = counted-IsSorted b g h in ((w.order, w.drains), each (keys_of b.nodes) (λ x m. m))
  where
    each :
        (ks : List String)
        → ((x : String) → mem_string x ks ≡ true → mem_string x (keys_of b.nodes) ≡ true)
        → All (HasEntries b g) ks
    each [] f = tt
    each (k ∷ ks) f =
        let known = f k (ground (arith, eq_refl k)) in
        let both =
          add_nodes-HasBoth k b.nodes _ g
            (fill-contains (pos 0) b.nodes [] k known, fill-contains [] b.nodes [] k known) h in
        (
          (both.0, both.1, index-contains b.nodes 0 [] k known),
          each ks (λ x m. f x (ground (arith, m))),
        )
