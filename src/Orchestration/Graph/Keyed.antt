-- ===== src/Orchestration/Graph/Keyed.antt =====
-- The dictionaries of the sort have one entry for each key of the blueprint.
use hydra_mind.Prelude.{
  zero, suc, ◌≤◌, ℤ, pos, negsuc, String, ◌≡◌, refl, Bool, true, false, ◌||◌, List, [], ◌∷◌, arith,
  str_eq, eq_iff, eq_refl, one_if, ok, >>=-eq-ok, ok-injective, all, is_some,
}
use hydra_mind.Prelude.Dict.{Dict, get, put}
use hydra_mind.Prelude.Entries.{entries, put-entries}
use hydra_mind.Prelude.Sort.{mem_string}
use hydra_mind.Control.Models.{WorkflowNodeSpec}
use hydra_mind.Control.Workflow.{keys_of}
use hydra_mind.Orchestration.Graph.{
  Edges, degree, roots, increment, fill, add_edge, add_requires, add_nodes,
}
use hydra_mind.Orchestration.Graph.Degrees.{occurs}

abbrev pub IsKeyed : List WorkflowNodeSpec → Dict ℤ → Type 0
IsKeyed nodes d = (x : String) → entries x d ≡ one_if (mem_string x (keys_of nodes))

fill-entries :
    (v : ℤ) (ns : List WorkflowNodeSpec) (d : Dict ℤ) (x : String) (b : Bool)
    → entries x d ≡ one_if b
    → entries x (fill v ns d) ≡ one_if (b || mem_string x (keys_of ns))
unfolding fill mem_string
fill-entries v [] d x b h = ground (arith, h)
fill-entries v (n ∷ ns) d x b h = ground (
  arith,
  fill-entries v ns (put d n.key v) x (str_eq n.key x || b)
      (ground (arith, put-entries d n.key x v, h)),
)

pub fill-IsKeyed : (v : ℤ) (ns : List WorkflowNodeSpec) → IsKeyed ns (fill v ns [])
unfolding entries
fill-IsKeyed v ns x = fill-entries v ns [] x false refl

module _ (nodes : List WorkflowNodeSpec) where
  edge-IsKeyed :
      (key r : String) (g : Edges)
      → mem_string key (keys_of nodes) ≡ true
      → IsKeyed nodes g.in_degree
      → IsKeyed nodes (add_edge key r g).in_degree
  unfolding add_edge
  edge-IsKeyed key r g m k x =
      ground (
        arith,
        put-entries g.in_degree key x (increment (degree g.in_degree key)),
        k x,
        eq_iff key x,
      )

  add_requires-IsKeyed :
      (key : String) (rs : List String) (g g' : Edges)
      → mem_string key (keys_of nodes) ≡ true
      → IsKeyed nodes g.in_degree
      → add_requires key rs g ≡ ok g'
      → IsKeyed nodes g'.in_degree
  unfolding add_requires add_edge
  add_requires-IsKeyed key [] g g' m k h = rw (← ok-injective h) k
  add_requires-IsKeyed key (r ∷ rs) g g' m k h =
      add_requires-IsKeyed key rs (add_edge key r g) g' m (edge-IsKeyed key r g m k) (ground arith)

  pub add_nodes-IsKeyed :
      (ns : List WorkflowNodeSpec) (g g' : Edges)
      → ((x : String) → mem_string x (keys_of ns) ≡ true → mem_string x (keys_of nodes) ≡ true)
      → IsKeyed nodes g.in_degree
      → add_nodes ns g ≡ ok g'
      → IsKeyed nodes g'.in_degree
  unfolding add_nodes mem_string
  add_nodes-IsKeyed [] g g' m k h = rw (← ok-injective h) k
  add_nodes-IsKeyed (n ∷ ns) g g' m k h =
      let (mid, h1, h2) = >>=-eq-ok (add_requires n.key n.requires g) (add_nodes ns) h in
      add_nodes-IsKeyed ns mid g' (λ x y. m x (ground arith))
        (add_requires-IsKeyed n.key n.requires g mid (m n.key (ground (arith, eq_refl n.key))) k h1)
        h2

  entry_found : (d : Dict ℤ) (x : String) → 1 ≤ entries x d → is_some (get d x) ≡ true
  unfolding entries get
  entry_found [] x h = absurd (omega arith)
  entry_found ((k, v) ∷ d) x h = ground (arith, entry_found d x)

  add_requires-ok :
      (key : String) (rs : List String) (g : Edges)
      → mem_string key (keys_of nodes) ≡ true
      → all (λ r. mem_string r (keys_of nodes)) rs ≡ true
      → IsKeyed nodes g.in_degree
      → (g' : Edges) × (add_requires key rs g ≡ ok g')
  unfolding add_requires
  add_requires-ok key [] g m a k = (g, refl)
  add_requires-ok key (r ∷ rs) g m a k =
      let rest =
        add_requires-ok key rs (add_edge key r g) m (ground arith) (edge-IsKeyed key r g m k) in
      (rest.0, rw (entry_found g.in_degree r (ground (arith, k r))) rest.1)

  pub add_nodes-ok :
      (ns : List WorkflowNodeSpec) (g : Edges)
      → ((x : String) → mem_string x (keys_of ns) ≡ true → mem_string x (keys_of nodes) ≡ true)
      → all (λ n. all (λ r. mem_string r (keys_of nodes)) n.requires) ns ≡ true
      → IsKeyed nodes g.in_degree
      → (g' : Edges) × (add_nodes ns g ≡ ok g')
  unfolding add_nodes mem_string
  add_nodes-ok [] g m a k = (g, refl)
  add_nodes-ok (n ∷ ns) g m a k =
      let here = m n.key (ground (arith, eq_refl n.key)) in
      let (mid, first) = add_requires-ok n.key n.requires g here (ground arith) k in
      let (last, rest) =
        add_nodes-ok ns mid (λ x y. m x (ground arith)) (ground arith)
          (add_requires-IsKeyed n.key n.requires g mid here k first) in
      (last, rw first rest)

pub roots-entries : (d : Dict ℤ) (x : String) → occurs x (roots d) ≤ entries x d
unfolding roots occurs entries
roots-entries [] x = omega arith
roots-entries ((k, pos zero) ∷ d) x = ground (arith, roots-entries d x)
roots-entries ((k, pos (suc n)) ∷ d) x = ground (arith, roots-entries d x)
roots-entries ((k, negsuc n) ∷ d) x = ground (arith, roots-entries d x)

pub roots_zero :
    (d : Dict ℤ) (x : String) → entries x d ≤ 1 → 1 ≤ occurs x (roots d) → degree d x ≡ pos 0
unfolding roots occurs entries get
roots_zero [] x u h = absurd (omega arith)
roots_zero ((k, pos zero) ∷ d) x u h = ground (arith, roots_zero d x)
roots_zero ((k, pos (suc n)) ∷ d) x u h = ground (arith, roots_zero d x, roots-entries d x)
roots_zero ((k, negsuc n) ∷ d) x u h = ground (arith, roots_zero d x, roots-entries d x)

pub zero_roots :
    (d : Dict ℤ) (x : String) → 1 ≤ entries x d → degree d x ≡ pos 0 → 1 ≤ occurs x (roots d)
unfolding roots occurs entries get
zero_roots [] x p h = absurd (omega arith)
zero_roots ((k, pos zero) ∷ d) x p h = ground (arith, zero_roots d x)
zero_roots ((k, pos (suc n)) ∷ d) x p h = ground (arith, zero_roots d x)
zero_roots ((k, negsuc n) ∷ d) x p h = ground (arith, zero_roots d x)
