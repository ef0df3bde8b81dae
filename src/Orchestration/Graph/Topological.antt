-- ===== src/Orchestration/Graph/Topological.antt =====
-- The sort of a workflow gives a schedule of it, and refuses only workflows that have none.
use hydra_mind.Prelude.{
  ℕ, ◌≤◌, ℤ, pos, String, ◌≡◌, refl, true, some, List, [], ◌∷◌, arith, eq_iff, eq_refl, length, ok,
  >>=-eq-ok, Bool-cases, inl, inr, subst, All,
}
use hydra_mind.Prelude.Dict.{Dict}
use hydra_mind.Prelude.Sort.{mem_string}
use hydra_mind.Control.Models.{WorkflowNodeSpec, WorkflowBlueprint}
use hydra_mind.Control.Workflow.{keys_of}
use hydra_mind.Control.Workflow.Visit.{mem-append}
use hydra_mind.Orchestration.Graph.{Edges, add_nodes, drained, complete_order, topological}
use hydra_mind.Orchestration.Graph.Keyed.{fill-IsKeyed, add_nodes-ok}
use hydra_mind.Orchestration.Graph.Degrees.{occurs}
use hydra_mind.Orchestration.Graph.Schedule.{
  IsSchedule, met-open, scheduled-known, occurs-mem, mem-occurs, occurs-length, occurs-full,
}
use hydra_mind.Orchestration.Graph.Sorting.{IsSorting, IsSorted, counted-IsSorted}

complete_order-ok :
    (n : ℕ) (o : List String) {order : List String}
    → complete_order n (some o) ≡ ok order
    → (o ≡ order) × (length o ≡ n)
complete_order-ok n o h = ground arith

complete_order-full : (n : ℕ) (o : List String) → length o ≡ n → complete_order n (some o) ≡ ok o
complete_order-full n o l = ground arith

length-keys_of : (nodes : List WorkflowNodeSpec) → length (keys_of nodes) ≡ length nodes
length-keys_of [] = refl
length-keys_of (n ∷ ns) = omega (arith, length-keys_of ns)

-- What the loop put in order is part of the blueprint, and has no key twice.
sorted-occurs :
    (nodes : List WorkflowNodeSpec) (o : List String) {d : Dict ℤ}
    → IsSorting nodes o (record { in_degree = d; ready = [] })
    → (x : String) → occurs x o ≤ occurs x (keys_of nodes)
unfolding occurs
sorted-occurs nodes o w x = ground (arith, w.single x, w.known x, mem-occurs x (keys_of nodes))

sorted-full :
    (b : WorkflowBlueprint) (o : List String) {d : Dict ℤ}
    → IsSorting b.nodes o (record { in_degree = d; ready = [] })
    → length o ≡ length b.nodes
    → (k : String) → mem_string k (keys_of b.nodes) ≡ true
    → mem_string k o ≡ true
sorted-full b o w l k m = occurs-mem k o (
    omega (
      arith,
      occurs-full o (keys_of b.nodes) k (sorted-occurs b.nodes o w)
          (omega (arith, length-keys_of b.nodes)),
      mem-occurs k (keys_of b.nodes) m,
    ))

-- Every schedule is within what the loop put in order.
schedule-sorted :
    (nodes : List WorkflowNodeSpec) (o : List String) {d : Dict ℤ} {order : List String}
    → IsSorting nodes o (record { in_degree = d; ready = [] })
    → IsSchedule nodes order
    → (x : String) → mem_string x order ≡ true
    → mem_string x o ≡ true
unfolding mem_string occurs
schedule-sorted nodes o w IsSchedule.start x m = cc m
schedule-sorted nodes o w (IsSchedule.next done k s known fresh met_before) x m =
    let placed = occurs-mem k o (
      omega (
        arith,
        w.met_ready k known (met-open nodes k done o (schedule-sorted nodes o w s) met_before),
      )) in
    elim (Bool-cases (mem_string x done)) [
      | inl old ↦ schedule-sorted nodes o w s x old
      | inr late ↦ ground (arith, mem-append x done (k ∷ []), eq_iff k x, placed)
    ]

sorted-schedule :
    (b : WorkflowBlueprint) (g : Edges) {order : List String}
    → IsSorted b g
    → complete_order (length b.nodes) (drained b g) ≡ ok order
    → IsSchedule b.nodes order
      × ((k : String) → mem_string k (keys_of b.nodes) ≡ true → mem_string k order ≡ true)
sorted-schedule b g {order} w h =
    let full =
      complete_order-ok (length b.nodes) w.order
        (subst (λ o. complete_order (length b.nodes) o ≡ ok order) w.drains h) in
    subst
      (λ o.
        IsSchedule b.nodes o
        × ((k : String) → mem_string k (keys_of b.nodes) ≡ true → mem_string k o ≡ true))
      full.0 (w.sorting.scheduled, sorted-full b w.order w.sorting full.1)

-- A schedule with every key makes the loop end with every key.
sorted-length :
    (b : WorkflowBlueprint) (g : Edges) (order : List String) (w : IsSorted b g)
    → ((k : String) → occurs k (keys_of b.nodes) ≤ 1)
    → IsSchedule b.nodes order
    → ((k : String) → mem_string k (keys_of b.nodes) ≡ true → mem_string k order ≡ true)
    → length w.order ≡ length b.nodes
sorted-length b g order w u s full = omega (
  arith,
  occurs-length w.order (keys_of b.nodes) (sorted-occurs b.nodes w.order w.sorting),
  occurs-length (keys_of b.nodes) w.order back,
  length-keys_of b.nodes,
)
  where
    back : (x : String) → occurs x (keys_of b.nodes) ≤ occurs x w.order
    back x = ground (
      arith,
      u x,
      full x,
      occurs-mem x (keys_of b.nodes),
      mem-occurs x w.order,
      schedule-sorted b.nodes w.order w.sorting s x,
    )

-- An order that the sort returns is a schedule of the blueprint, and it has every key of it.
pub topological-IsSchedule :
    (b : WorkflowBlueprint) {order : List String}
    → topological b ≡ ok order
    → IsSchedule b.nodes order × All (λ k. mem_string k order ≡ true) (keys_of b.nodes)
unfolding topological mem_string
topological-IsSchedule b {order} h =
    let (g, first, last) =
      >>=-eq-ok (add_nodes b.nodes _) (λ g. complete_order (length b.nodes) (drained b g)) h in
    let r = sorted-schedule b g (counted-IsSorted b g first) last in
    (r.0, each (keys_of b.nodes) r.1)
  where
    each :
        (ks : List String)
        → ((k : String) → mem_string k ks ≡ true → mem_string k order ≡ true)
        → All (λ k. mem_string k order ≡ true) ks
    each [] f = tt
    each (k ∷ ks) f = (f k (ground (arith, eq_refl k)), each ks (λ x m. f x (ground (arith, m))))

-- With distinct keys in the blueprint, the sort succeeds whenever there is a schedule that has every
-- key: it raises neither for a cycle nor for an unknown requirement.
pub schedulable_sorts :
    (b : WorkflowBlueprint) (order : List String)
    → ((k : String) → occurs k (keys_of b.nodes) ≤ 1)
    → IsSchedule b.nodes order
    → All (λ k. mem_string k order ≡ true) (keys_of b.nodes)
    → (o : List String) × (topological b ≡ ok o)
unfolding topological mem_string
schedulable_sorts b order u s full =
    let known = scheduled-known b.nodes order s (among (keys_of b.nodes) full) in
    let (g, added) =
      add_nodes-ok b.nodes b.nodes _ (λ x m. m) known (fill-IsKeyed (pos 0) b.nodes) in
    let w = counted-IsSorted b g added in
    (
      w.order,
      rw (added, w.drains)
          (complete_order-full (length b.nodes) w.order
            (sorted-length b g order w u s (among (keys_of b.nodes) full))),
    )
  where
    among :
        (ks : List String)
        → All (λ k. mem_string k order ≡ true) ks
        → (k : String) → mem_string k ks ≡ true
        → mem_string k order ≡ true
    among [] all_in k m = cc m
    among (x ∷ ks) all_in k m = ground (arith, among ks all_in.1 k, all_in.0, eq_iff x k)
