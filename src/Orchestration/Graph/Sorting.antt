-- ===== src/Orchestration/Graph/Sorting.antt =====
-- The loop of the sort, and what holds while it runs.
use hydra_mind.Prelude.{
  ℕ, zero, suc, ◌+◌, ◌≤◌, ℤ, pos, String, ◌≡◌, true, false, some, List, [], ◌∷◌, ◌++◌, arith,
  eq_refl, length, ok, ◌∙◌, subst, ap, some-injective,
}
use hydra_mind.Prelude.Dict.{Dict}
use hydra_mind.Prelude.Sort.{mem_string}
use hydra_mind.Control.Models.{WorkflowNodeSpec, WorkflowBlueprint}
use hydra_mind.Control.Workflow.{keys_of}
use hydra_mind.Orchestration.Graph.{
  Edges, Progress, degree, children_of, roots, sort_by_index, declared_index, fill, add_nodes,
  release_all, drain, drained,
}
use hydra_mind.Orchestration.Graph.Keyed.{
  IsKeyed, fill-IsKeyed, add_nodes-IsKeyed, roots-entries, roots_zero, zero_roots,
}
use hydra_mind.Orchestration.Graph.Degrees.{
  occurs, occurs-append, open_requires, open_requires-snoc, edges, IsCounted, add_nodes-IsCounted,
}
use hydra_mind.Orchestration.Graph.Release.{
  freed, freed_le, freed_only, freed_last, IsReleased, release_all-IsReleased, drain_enough,
  sort_by_index-occurs, sort_by_index-length, roots-measure,
}
use hydra_mind.Orchestration.Graph.Schedule.{IsSchedule, open-met, mem-occurs}

-- What holds each time the loop tests `ready`.
pub record IsSorting (nodes : List WorkflowNodeSpec) (done : List String) (s : Progress)
    : Type 0 where
  pub degrees : (x : String) → degree s.in_degree x ≡ pos (open_requires nodes x done)
  pub single : (x : String) → occurs x done + occurs x s.ready ≤ 1
  pub ready_met :
      (x : String) → 1 ≤ occurs x done + occurs x s.ready → open_requires nodes x done ≡ 0
  pub met_ready :
      (x : String)
      → mem_string x (keys_of nodes) ≡ true
      → open_requires nodes x done ≡ 0
      → 1 ≤ occurs x done + occurs x s.ready
  pub known :
      (x : String) → 1 ≤ occurs x done + occurs x s.ready → mem_string x (keys_of nodes) ≡ true
  pub scheduled : IsSchedule nodes done

-- Only keys of the blueprint require anything.
edges-known :
    (nodes : List WorkflowNodeSpec) (k c : String)
    → 1 ≤ edges nodes k c
    → mem_string k (keys_of nodes) ≡ true
unfolding edges mem_string
edges-known [] k c h = absurd (omega arith)
edges-known (n ∷ ns) k c h = ground (arith, edges-known ns k c)

module _ (nodes : List WorkflowNodeSpec) (index : Dict ℕ) (down : Dict (List String))
    (listed : (k c : String) → occurs k (children_of down c) ≡ edges nodes k c) where
  abbrev after : String → List String → Dict ℤ → Progress
  after c rest d = release_all index (children_of down c) (record { in_degree = d; ready = rest })

  module _ (done rest : List String) (c : String) (d : Dict ℤ)
      (w : IsSorting nodes done (record { in_degree = d; ready = c ∷ rest })) where
    new : mem_string c done ≡ false
    unfolding occurs
    new = ground (arith, w.single c, eq_refl c, mem-occurs c done)

    split :
        (x : String)
        → open_requires nodes x done ≡ edges nodes x c + open_requires nodes x (done ++ c ∷ [])
    split x = open_requires-snoc nodes x done c new

    released :
        (x : String)
        → IsReleased x
            (edges nodes x c)
            (open_requires nodes x (done ++ c ∷ []))
            (record { in_degree = d; ready = rest })
            (after c rest d)
    released x = rw (← listed x c) (
        release_all-IsReleased index x (children_of down c) (record { in_degree = d; ready = rest })
          (open_requires nodes x (done ++ c ∷ []))
          (w.degrees x ∙ ap pos (rw (listed x c) (split x))))

    -- The places of a key before and after the round.
    places :
        (x : String)
        → occurs x (done ++ c ∷ []) + occurs x (after c rest d).ready
          ≡ occurs x done
            + occurs x (c ∷ rest)
            + freed (edges nodes x c) (open_requires nodes x (done ++ c ∷ []))
    unfolding occurs
    places x = ground (arith, occurs-append x done (c ∷ []), (released x).joined)

    step-IsSorting : IsSorting nodes (done ++ c ∷ []) (after c rest d)
    unfolding occurs
    step-IsSorting = record {
      degrees = λ x. (released x).left;
      single = λ x. ground (
        arith,
        places x,
        w.single x,
        w.ready_met x,
        split x,
        freed_le (edges nodes x c) (open_requires nodes x (done ++ c ∷ [])),
        freed_only (edges nodes x c) (open_requires nodes x (done ++ c ∷ [])),
      );
      ready_met = λ x h. ground (
        arith,
        places x,
        w.ready_met x,
        split x,
        freed_only (edges nodes x c) (open_requires nodes x (done ++ c ∷ [])),
      );
      met_ready = λ x k h. ground (
        arith,
        places x,
        w.met_ready x k,
        split x,
        freed_last (edges nodes x c) (open_requires nodes x (done ++ c ∷ [])),
      );
      known = λ x h. ground (
        arith,
        places x,
        w.known x,
        edges-known nodes x c,
        freed_only (edges nodes x c) (open_requires nodes x (done ++ c ∷ [])),
      );
      scheduled =
          IsSchedule.next done c w.scheduled (w.known c (ground (arith, eq_refl c))) new
            (open-met nodes c done (w.ready_met c (ground (arith, eq_refl c))));
    }

  drain-IsSorting :
      (fuel : ℕ) (done ready : List String) (d : Dict ℤ) {order : List String}
      → IsSorting nodes done (record { in_degree = d; ready = ready })
      → drain fuel index down done (record { in_degree = d; ready = ready }) ≡ some order
      → (e : Dict ℤ) × IsSorting nodes order (record { in_degree = e; ready = [] })
  unfolding drain
  drain-IsSorting zero done ready d w h = cc
  drain-IsSorting (suc fuel) done [] d w h = (
    d,
    subst (λ o. IsSorting nodes o (record { in_degree = d; ready = [] })) (some-injective h) w,
  )
  drain-IsSorting (suc fuel) done (c ∷ ready) d w h =
      drain-IsSorting fuel (done ++ c ∷ []) (after c ready d).ready (after c ready d).in_degree
        (step-IsSorting done ready c d w) h

start-IsSorting :
    (nodes : List WorkflowNodeSpec) (index : Dict ℕ) (g : Edges)
    → IsCounted nodes g
    → IsKeyed nodes g.in_degree
    → IsSorting nodes []
        (record { in_degree = g.in_degree; ready = sort_by_index index (roots g.in_degree) })
unfolding occurs
start-IsSorting nodes index g w k = record {
  degrees = w.counted;
  single = λ x. ground (arith, sorted x, roots-entries g.in_degree x, k x);
  ready_met = λ x h.
      ground
        (arith, sorted x, roots_zero g.in_degree x, roots-entries g.in_degree x, k x, w.counted x);
  met_ready = λ x m h. ground (arith, sorted x, zero_roots g.in_degree x, k x, w.counted x);
  known = λ x h. ground (arith, sorted x, roots-entries g.in_degree x, k x);
  scheduled = IsSchedule.start;
}
  where
    sorted :
        (x : String)
        → occurs x (sort_by_index index (roots g.in_degree)) ≡ occurs x (roots g.in_degree)
    sorted x = sort_by_index-occurs index x (roots g.in_degree)

-- The loops ran, and this is what came of it.
pub record IsSorted (b : WorkflowBlueprint) (g : Edges) : Type 0 where
  pub order : List String
  pub drains : drained b g ≡ some order
  pub last : Dict ℤ
  pub sorting : IsSorting b.nodes order (record { in_degree = last; ready = [] })

pub counted-IsSorted :
    (b : WorkflowBlueprint) (g : Edges)
    → add_nodes b.nodes
        (record { in_degree = fill (pos 0) b.nodes []; downstream = fill [] b.nodes [] })
      ≡ ok g
    → IsSorted b g
unfolding drained
counted-IsSorted b g h =
    let index = declared_index b.nodes 0 [] in
    let ready = sort_by_index index (roots g.in_degree) in
    let w = add_nodes-IsCounted b.nodes g h in
    let k = add_nodes-IsKeyed b.nodes b.nodes _ g (λ x m. m) (fill-IsKeyed (pos 0) b.nodes) h in
    let ends =
      drain_enough (suc (length g.in_degree)) index g.downstream [] ready g.in_degree (
        omega (arith, sort_by_index-length index (roots g.in_degree), roots-measure g.in_degree)) in
    let result =
      drain-IsSorting b.nodes index g.downstream w.listed (suc (length g.in_degree)) [] ready
        g.in_degree (start-IsSorting b.nodes index g w k) ends.1 in
    record { order = ends.0; drains = ends.1; last = result.0; sorting = result.1 }
