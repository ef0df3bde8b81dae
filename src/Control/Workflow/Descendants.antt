-- ===== src/Control/Workflow/Descendants.antt =====
-- Which keys the search for descendants finds.
use hydra_mind.Prelude.{
  ℕ, zero, suc, ◌+◌, ◌≤◌, String, ◌≡◌, refl, true, ◌⊎◌, ◌↔◌, inl, inr, List, [], ◌∷◌, arith, length,
  eq_iff, eq_refl, ap, subst, Bool-cases,
}
use hydra_mind.Prelude.Sort.{mem_string}
use hydra_mind.Control.Models.{WorkflowNodeSpec, WorkflowBlueprint}
use hydra_mind.Control.Workflow.{visit, children, child_entries, descend, descendant_keys, keys_of}
use hydra_mind.Control.Workflow.Visit.{
  IsVisited, visit-IsVisited, visit-measure, missing, missing_le, children-known, mem-append,
}

-- A node of the list has the key `x` and names `r` among the keys that it requires.
abbrev pub Requires : List WorkflowNodeSpec → String → String → Type 0
Requires [] x r = ⊥
Requires (n ∷ ns) x r = ((n.key ≡ x) × (mem_string r n.requires ≡ true)) ⊎ Requires ns x r

-- A key that requires one of the roots, or requires such a key, in any number of steps.
pub data Below (nodes : List WorkflowNodeSpec) (roots : List String) : String → Type 0 where
  child : (r x : String) → mem_string r roots ≡ true → Requires nodes x r → Below nodes roots x
  deeper : (d x : String) → Below nodes roots d → Requires nodes x d → Below nodes roots x

child_entries-requires :
    (r key x : String) (rs : List String)
    → mem_string x (child_entries r key rs) ≡ true
    → (key ≡ x) × (mem_string r rs ≡ true)
unfolding child_entries mem_string
child_entries-requires r key x [] h = cc h
child_entries-requires r key x (q ∷ rs) h =
    ground (arith, child_entries-requires r key x rs, eq_iff key x)

requires-child_entries :
    (r key : String) (rs : List String)
    → mem_string r rs ≡ true
    → mem_string key (child_entries r key rs) ≡ true
unfolding child_entries mem_string
requires-child_entries r key [] h = cc h
requires-child_entries r key (q ∷ rs) h =
    ground (arith, requires-child_entries r key rs, eq_refl key)

children-Requires :
    (nodes : List WorkflowNodeSpec) (r x : String)
    → mem_string x (children nodes r) ≡ true
    → Requires nodes x r
unfolding children mem_string
children-Requires [] r x h = cc h
children-Requires (n ∷ ns) r x h =
    elim (Bool-cases (mem_string x (child_entries r n.key n.requires))) [
      | inl own ↦ inl (child_entries-requires r n.key x n.requires own)
      | inr other ↦ inr (
          children-Requires ns r x
            (ground (arith, mem-append x (child_entries r n.key n.requires) (children ns r))))
    ]

Requires-children :
    (nodes : List WorkflowNodeSpec) (r x : String)
    → Requires nodes x r
    → mem_string x (children nodes r) ≡ true
unfolding children mem_string
Requires-children [] r x h = absurd h
Requires-children (n ∷ ns) r x (inl (same, named)) =
    subst (λ k. mem_string k (children (n ∷ ns) r) ≡ true) same
      (ground (
        arith,
        mem-append n.key (child_entries r n.key n.requires) (children ns r),
        requires-child_entries r n.key n.requires named,
      ))
Requires-children (n ∷ ns) r x (inr later) = ground (
  arith,
  mem-append x (child_entries r n.key n.requires) (children ns r),
  Requires-children ns r x later,
)

module _ (nodes : List WorkflowNodeSpec) where
  -- The children of every key found are found, unless the key still waits.
  IsExplored : List String → List String → Type 0
  IsExplored found frontier =
      (x c : String)
      → mem_string x found ≡ true
      → mem_string c (children nodes x) ≡ true
      → (mem_string x frontier ≡ true) ⊎ (mem_string c found ≡ true)

  IsExplored-round :
      (current : String) (found frontier found' frontier' : List String)
      → IsVisited (children nodes current) found frontier found' frontier'
      → IsExplored found (current ∷ frontier)
      → IsExplored found' frontier'
  unfolding IsExplored mem_string
  IsExplored-round current found frontier found' frontier' p e x c h k =
      ground (arith, p.origin x h, p.waits x, p.covers c, p.grows c, e x c, eq_iff current x)

  -- What the search returns is closed under children.
  record IsClosed (found frontier result : List String) : Type 0 where
    keeps : (x : String) → mem_string x found ≡ true → mem_string x result ≡ true
    from_frontier :
        (x c : String)
        → mem_string x frontier ≡ true
        → mem_string c (children nodes x) ≡ true
        → mem_string c result ≡ true
    from_result :
        (x c : String)
        → mem_string x result ≡ true
        → mem_string c (children nodes x) ≡ true
        → mem_string c result ≡ true

  descend-IsClosed :
      (fuel : ℕ) (found frontier : List String)
      → length frontier + missing (keys_of nodes) found ≤ fuel
      → IsExplored found frontier
      → IsClosed found frontier (descend fuel nodes found frontier)
  unfolding descend IsExplored mem_string
  descend-IsClosed zero found [] enough e = record {
    keeps = λ x h. h;
    from_frontier = λ x c h k. cc h;
    from_result = λ x c h k. ground (arith, e x c h k);
  }
  descend-IsClosed zero found (current ∷ frontier) enough e = absurd (omega (arith, enough))
  descend-IsClosed (suc fuel) found [] enough e = record {
    keeps = λ x h. h;
    from_frontier = λ x c h k. cc h;
    from_result = λ x c h k. ground (arith, e x c h k);
  }
  descend-IsClosed (suc fuel) found (current ∷ frontier) enough e =
      let next = visit (children nodes current) found frontier in
      let p = visit-IsVisited (children nodes current) found frontier in
      let rest =
        descend-IsClosed fuel next.0 next.1
          (omega (
            arith,
            enough,
            visit-measure (keys_of nodes) (children nodes current) found frontier
                (children-known nodes current),
          ))
          (IsExplored-round current found frontier next.0 next.1 p e) in
      record {
        keeps = λ x h. rest.keeps x (p.grows x h);
        from_frontier = λ x c h k.
            ground (
              arith,
              rest.from_frontier x c,
              rest.keeps c,
              p.covers c,
              p.waits x,
              eq_iff current x,
            );
        from_result = rest.from_result;
      }

  descend-Below :
      (fuel : ℕ) (roots found frontier : List String)
      → ((x : String) → mem_string x found ≡ true → Below nodes roots x)
      → ((x : String)
          → mem_string x frontier ≡ true
          → (mem_string x roots ≡ true) ⊎ Below nodes roots x)
      → (x : String) → mem_string x (descend fuel nodes found frontier) ≡ true
      → Below nodes roots x
  unfolding descend mem_string
  descend-Below zero roots found frontier f g x h = f x h
  descend-Below (suc fuel) roots found [] f g x h = f x h
  descend-Below (suc fuel) roots found (current ∷ frontier) f g x h =
      let next = visit (children nodes current) found frontier in
      let p = visit-IsVisited (children nodes current) found frontier in
      let below : (y : String)
          → mem_string y (children nodes current) ≡ true
          → Below nodes roots y =
        λ y j.
          let k = children-Requires nodes current y j in
          elim (g current (ground (arith, eq_refl current))) [
            | inl root ↦ child current y root k
            | inr deep ↦ deeper current y deep k
          ] in
      descend-Below fuel roots next.0 next.1
        (λ y k. elim (p.origin y k) [ inl old ↦ f y old | inr (new, _) ↦ below y new ])
        (λ y k. elim (p.source y k) [ inl old ↦ g y (ground arith) | inr new ↦ inr (below y new) ])
        x h

  empty-IsExplored : (roots : List String) → IsExplored [] roots
  unfolding IsExplored mem_string
  empty-IsExplored roots x c h k = cc h

  closed-Below :
      (roots result : List String)
      → IsClosed [] roots result
      → (x : String) → Below nodes roots x
      → mem_string x result ≡ true
  closed-Below roots result p x (child r _ root k) =
      p.from_frontier r x root (Requires-children nodes r x k)
  closed-Below roots result p x (deeper d _ deep k) =
      p.from_result d x (closed-Below roots result p d deep) (Requires-children nodes d x k)

length-keys : (nodes : List WorkflowNodeSpec) → length (keys_of nodes) ≡ length nodes
length-keys [] = refl
length-keys (n ∷ ns) = ap suc (length-keys ns)

no_member : {A : Type 0} (y : String) → mem_string y [] ≡ true → A
unfolding mem_string
no_member y h = cc h

-- The descendants of some roots are exactly the keys that require one of the roots, directly or
-- over other nodes of the blueprint: the search stops with all of them, also on a blueprint with a
-- cycle.
pub descendant_keys-Below :
    (b : WorkflowBlueprint) (roots : List String) (x : String)
    → (mem_string x (descendant_keys b roots) ≡ true) ↔ Below b.nodes roots x
unfolding descendant_keys
descendant_keys-Below b roots x = (
  descend-Below b.nodes (suc (length roots + length b.nodes)) roots [] roots (λ y h. no_member y h)
      (λ y h. inl h) x,
  closed-Below b.nodes roots (descend (suc (length roots + length b.nodes)) b.nodes [] roots)
      (descend-IsClosed b.nodes (suc (length roots + length b.nodes)) [] roots
        (omega (arith, missing_le (keys_of b.nodes) [], length-keys b.nodes))
        (empty-IsExplored b.nodes roots))
      x,
)
