-- ===== src/Orchestration/Graph/Degrees.antt =====
-- How many requirements of a key are not met yet.
use hydra_mind.Prelude.{
  one_if, ℕ, suc, ◌+◌, pos, String, ◌≡◌, refl, false, List, [], ◌∷◌, ◌++◌, arith, str_eq, eq_iff,
  if◌then◌else◌, ok, >>=-eq-ok, ok-injective,
}
use hydra_mind.Prelude.Dict.{Dict, get, put, get-put}
use hydra_mind.Prelude.Sort.{mem_string}
use hydra_mind.Control.Models.{WorkflowNodeSpec}
use hydra_mind.Control.Workflow.Visit.{mem-append}
use hydra_mind.Orchestration.Graph.{
  Edges, degree, children_of, value_or, increment, add_edge, add_requires, add_nodes, fill,
}

-- `xs.count(x)`
unfoldable pub occurs : String → List String → ℕ
occurs x [] = 0
occurs x (y ∷ ys) = let rest = occurs x ys in if str_eq y x then suc rest else rest

pub occurs-append :
    (x : String) (xs ys : List String) → occurs x (xs ++ ys) ≡ occurs x xs + occurs x ys
unfolding occurs
occurs-append x [] ys = omega arith
occurs-append x (y ∷ xs) ys = ground (arith, occurs-append x xs ys)

-- The entries of a list that are not among the keys done.
unfoldable pub unmet : List String → List String → ℕ
unfolding mem_string
unmet done [] = 0
unmet done (r ∷ rs) = let rest = unmet done rs in if mem_string r done then rest else suc rest

-- The requirements of the nodes of a key that are not done.
unfoldable pub open_requires : List WorkflowNodeSpec → String → List String → ℕ
unfolding unmet
open_requires [] k done = 0
open_requires (n ∷ ns) k done =
    let rest = open_requires ns k done in
    if str_eq n.key k then unmet done n.requires + rest else rest

-- How often the nodes of a key require another.
unfoldable pub edges : List WorkflowNodeSpec → String → String → ℕ
unfolding occurs
edges [] k req = 0
edges (n ∷ ns) k req =
    let rest = edges ns k req in if str_eq n.key k then occurs req n.requires + rest else rest

unmet-snoc :
    (done rs : List String) (c : String)
    → mem_string c done ≡ false
    → unmet done rs ≡ occurs c rs + unmet (done ++ c ∷ []) rs
unfolding unmet occurs mem_string
unmet-snoc done [] c new = refl
unmet-snoc done (r ∷ rs) c new =
    ground (arith, unmet-snoc done rs c new, mem-append r done (c ∷ []), eq_iff r c, eq_iff c r)

-- One more key done meets the requirements of it, and no other.
pub open_requires-snoc :
    (nodes : List WorkflowNodeSpec) (k : String) (done : List String) (c : String)
    → mem_string c done ≡ false
    → open_requires nodes k done ≡ edges nodes k c + open_requires nodes k (done ++ c ∷ [])
unfolding open_requires edges
open_requires-snoc [] k done c new = refl
open_requires-snoc (n ∷ ns) k done c new =
    ground (arith, open_requires-snoc ns k done c new, unmet-snoc done n.requires c new)

-- What the first loops count.
pub record IsCounted (nodes : List WorkflowNodeSpec) (g : Edges) : Type 0 where
  pub counted : (k : String) → degree g.in_degree k ≡ pos (open_requires nodes k [])
  pub listed : (k c : String) → occurs k (children_of g.downstream c) ≡ edges nodes k c

-- One edge more.
edge-degree :
    (key req : String) (g : Edges) (k : String) (n : ℕ)
    → degree g.in_degree k ≡ pos n
    → degree (add_edge key req g).in_degree k ≡ pos (if str_eq key k then suc n else n)
unfolding add_edge
edge-degree key req g k n e =
    ground (arith, get-put g.in_degree key k (increment (degree g.in_degree key)), eq_iff key k)

edge-children :
    (key req : String) (g : Edges) (k c : String)
    → occurs k (children_of (add_edge key req g).downstream c)
      ≡ occurs k (children_of g.downstream c) + (if str_eq req c then one_if (str_eq key k) else 0)
unfolding add_edge occurs
edge-children key req g k c = ground (
  arith,
  get-put g.downstream req c (children_of g.downstream req ++ key ∷ []),
  eq_iff req c,
  occurs-append k (children_of g.downstream req) (key ∷ []),
)

add_requires-step :
    (key r : String) (rs : List String) (g g' : Edges)
    → add_requires key (r ∷ rs) g ≡ ok g'
    → add_requires key rs (add_edge key r g) ≡ ok g'
unfolding add_requires
add_requires-step key r rs g g' h = ground arith

add_requires-degree :
    (key : String) (rs : List String) (g g' : Edges) (k : String) (n : ℕ)
    → add_requires key rs g ≡ ok g'
    → degree g.in_degree k ≡ pos n
    → degree g'.in_degree k ≡ pos (if str_eq key k then unmet [] rs + n else n)
unfolding add_requires unmet mem_string
add_requires-degree key [] g g' k n h e = rw (← ok-injective h) (ground arith)
add_requires-degree key (r ∷ rs) g g' k n h e = ground (
  arith,
  add_requires-degree key rs (add_edge key r g) g' k _ (add_requires-step key r rs g g' h)
      (edge-degree key r g k n e),
)

add_requires-children :
    (key : String) (rs : List String) (g g' : Edges) (k c : String)
    → add_requires key rs g ≡ ok g'
    → occurs k (children_of g'.downstream c)
      ≡ occurs k (children_of g.downstream c) + (if str_eq key k then occurs c rs else 0)
unfolding add_requires occurs
add_requires-children key [] g g' k c h = rw (← ok-injective h) (ground arith)
add_requires-children key (r ∷ rs) g g' k c h = ground (
  arith,
  add_requires-children key rs (add_edge key r g) g' k c (add_requires-step key r rs g g' h),
  edge-children key r g k c,
)

add_nodes-degree :
    (ns : List WorkflowNodeSpec) (g g' : Edges) (k : String) (n : ℕ)
    → add_nodes ns g ≡ ok g'
    → degree g.in_degree k ≡ pos n
    → degree g'.in_degree k ≡ pos (open_requires ns k [] + n)
unfolding add_nodes open_requires
add_nodes-degree [] g g' k n h e = rw (← ok-injective h) (ground (arith, e))
add_nodes-degree (x ∷ ns) g g' k n h e =
    let (mid, h1, h2) = >>=-eq-ok (add_requires x.key x.requires g) (add_nodes ns) h in
    ground (
      arith,
      add_nodes-degree ns mid g' k _ h2 (add_requires-degree x.key x.requires g mid k n h1 e),
    )

add_nodes-children :
    (ns : List WorkflowNodeSpec) (g g' : Edges) (k c : String)
    → add_nodes ns g ≡ ok g'
    → occurs k (children_of g'.downstream c) ≡ occurs k (children_of g.downstream c) + edges ns k c
unfolding add_nodes edges
add_nodes-children [] g g' k c h = rw (← ok-injective h) (ground arith)
add_nodes-children (x ∷ ns) g g' k c h =
    let (mid, h1, h2) = >>=-eq-ok (add_requires x.key x.requires g) (add_nodes ns) h in
    ground (
      arith,
      add_nodes-children ns mid g' k c h2,
      add_requires-children x.key x.requires g mid k c h1,
    )

fill-value :
    {V : Type 0} (v : V) (ns : List WorkflowNodeSpec) (d : Dict V) (k : String)
    → value_or v (get d k) ≡ v
    → value_or v (get (fill v ns d) k) ≡ v
unfolding fill
fill-value v [] d k h = h
fill-value v (n ∷ ns) d k h =
    fill-value v ns (put d n.key v) k (ground (arith, get-put d n.key k v))

-- The two loops count, when they raise nothing.
pub add_nodes-IsCounted :
    (ns : List WorkflowNodeSpec) (g : Edges)
    → add_nodes ns (record { in_degree = fill (pos 0) ns []; downstream = fill [] ns [] }) ≡ ok g
    → IsCounted ns g
unfolding occurs get
add_nodes-IsCounted ns g h = record {
  counted = λ k. ground (arith, add_nodes-degree ns _ g k 0 h (fill-value (pos 0) ns [] k refl));
  listed = λ k c.
      ground (arith, add_nodes-children ns _ g k c h, fill-value {V = List String} [] ns [] c refl);
}
