-- ===== src/Control/Workflow/Visit.antt =====
-- One round of the search for descendants.
use hydra_mind.Prelude.{
  ℕ, suc, ◌+◌, ◌≤◌, String, ◌≡◌, refl, true, false, ◌||◌, ◌⊎◌, inl, inr, List, [], ◌∷◌, ◌++◌, arith,
  length, length-append, Bool-cases, eq_iff, eq_refl, if◌then◌else◌,
}
use hydra_mind.Prelude.Sort.{mem_string}
use hydra_mind.Control.Models.{WorkflowNodeSpec}
use hydra_mind.Control.Workflow.{visit, children, child_entries, keys_of}

-- The texts of a list that are not in another.
unfoldable pub missing : List String → List String → ℕ
unfolding mem_string
missing [] found = 0
missing (k ∷ ks) found =
    let rest = missing ks found in if mem_string k found then rest else suc rest

missing-more :
    (ks : List String) (c : String) (found : List String)
    → missing ks (c ∷ found) ≤ missing ks found
unfolding missing
missing-more [] c found = omega arith
missing-more (k ∷ ks) c found = ground (arith, missing-more ks c found)

pub missing-less :
    (ks : List String) (c : String) (found : List String)
    → mem_string c ks ≡ true
    → mem_string c found ≡ false
    → suc (missing ks (c ∷ found)) ≤ missing ks found
unfolding missing mem_string
missing-less [] c found h k = cc
missing-less (x ∷ ks) c found h k =
    ground (arith, missing-more ks c found, missing-less ks c found, eq_iff x c, eq_iff c x)

pub missing_le : (ks found : List String) → missing ks found ≤ length ks
unfolding missing
missing_le [] found = omega arith
missing_le (k ∷ ks) found = ground (arith, missing_le ks found)

pub mem-append :
    (x : String) (xs ys : List String)
    → mem_string x (xs ++ ys) ≡ (mem_string x xs || mem_string x ys)
unfolding mem_string
mem-append x [] ys = refl
mem-append x (y ∷ xs) ys = ground (arith, mem-append x xs ys)

-- What a round does to the keys found and to the frontier.
pub record IsVisited (cs found frontier found' frontier' : List String) : Type 0 where
  pub grows : (x : String) → mem_string x found ≡ true → mem_string x found' ≡ true
  pub covers : (x : String) → mem_string x cs ≡ true → mem_string x found' ≡ true
  pub waits : (x : String) → mem_string x frontier ≡ true → mem_string x frontier' ≡ true
  pub origin :
      (x : String)
      → mem_string x found' ≡ true
      → (mem_string x found ≡ true) ⊎ ((mem_string x cs ≡ true) × (mem_string x frontier' ≡ true))
  pub source :
      (x : String)
      → mem_string x frontier' ≡ true
      → (mem_string x frontier ≡ true) ⊎ (mem_string x cs ≡ true)

old-IsVisited :
    (c : String) (cs found frontier found' frontier' : List String)
    → mem_string c found ≡ true
    → IsVisited cs found frontier found' frontier'
    → IsVisited (c ∷ cs) found frontier found' frontier'
unfolding mem_string
old-IsVisited c cs found frontier found' frontier' known p = record {
  grows = p.grows;
  covers = λ x h. ground (arith, eq_iff c x, p.covers x, p.grows x);
  waits = p.waits;
  origin = λ x h. ground (arith, p.origin x h);
  source = λ x h. ground (arith, p.source x h);
}

new-IsVisited :
    (c : String) (cs found frontier found' frontier' : List String)
    → IsVisited cs (c ∷ found) (frontier ++ c ∷ []) found' frontier'
    → IsVisited (c ∷ cs) found frontier found' frontier'
unfolding mem_string
new-IsVisited c cs found frontier found' frontier' p = record {
  grows = λ x h. p.grows x (ground arith);
  covers = λ x h. ground (arith, p.covers x, p.grows x);
  waits = λ x h. p.waits x (rw (mem-append x frontier (c ∷ [])) (ground arith));
  origin = λ x h. ground (arith, p.origin x h, p.waits x, mem-append x frontier (c ∷ []));
  source = λ x h. ground (arith, p.source x h, mem-append x frontier (c ∷ []));
}

pub visit-IsVisited :
    (cs found frontier : List String)
    → IsVisited cs found frontier (visit cs found frontier).0 (visit cs found frontier).1
unfolding visit mem_string
visit-IsVisited [] found frontier = record {
  grows = λ x h. h;
  covers = λ x h. cc h;
  waits = λ x h. h;
  origin = λ x h. inl h;
  source = λ x h. inl h;
}
visit-IsVisited (c ∷ cs) found frontier = elim (Bool-cases (mem_string c found)) [
  | inl known ↦
      rw known (old-IsVisited c cs found frontier _ _ known (visit-IsVisited cs found frontier))
  | inr new ↦
      rw new (
        new-IsVisited c cs found frontier _ _ (visit-IsVisited cs (c ∷ found) (frontier ++ c ∷ [])))
]

pub visit-measure :
    (ks cs found frontier : List String)
    → ((x : String) → mem_string x cs ≡ true → mem_string x ks ≡ true)
    → length (visit cs found frontier).1 + missing ks (visit cs found frontier).0
      ≤ length frontier + missing ks found
unfolding visit mem_string
visit-measure ks [] found frontier known = omega arith
visit-measure ks (c ∷ cs) found frontier known = elim (Bool-cases (mem_string c found)) [
  | inl old ↦ rw old (visit-measure ks cs found frontier (λ x h. known x (ground arith)))
  | inr new ↦ rw new (
      omega (
        arith,
        visit-measure ks cs (c ∷ found) (frontier ++ c ∷ []) (λ x h. known x (ground arith)),
        missing-less ks c found (known c (ground (arith, eq_refl c))) new,
        length-append frontier (c ∷ []),
      ))
]

child_entries-key :
    (current key x : String) (rs : List String)
    → mem_string x (child_entries current key rs) ≡ true
    → x ≡ key
unfolding child_entries mem_string
child_entries-key current key x [] h = cc
child_entries-key current key x (r ∷ rs) h =
    ground (arith, child_entries-key current key x rs, eq_iff key x)

pub children-known :
    (nodes : List WorkflowNodeSpec) (current x : String)
    → mem_string x (children nodes current) ≡ true
    → mem_string x (keys_of nodes) ≡ true
unfolding children mem_string
children-known [] current x h = cc
children-known (n ∷ ns) current x h = ground (
  arith,
  mem-append x (child_entries current n.key n.requires) (children ns current),
  child_entries-key current n.key x n.requires,
  children-known ns current x,
  eq_refl x,
)
