-- ===== src/Orchestration/Graph/Schedule.antt =====
-- What an order of a workflow has to be, and lists by how often they have an entry.
use hydra_mind.Prelude.{
  suc, ◌+◌, ◌≤◌, String, ◌≡◌, refl, Bool, true, false, List, [], ◌∷◌, ◌++◌, arith, str_eq, eq_iff,
  eq_refl, if◌then◌else◌, length, one_if, all,
}
use hydra_mind.Prelude.Sort.{mem_string}
use hydra_mind.Control.Models.{WorkflowNodeSpec}
use hydra_mind.Control.Workflow.{keys_of}
use hydra_mind.Control.Workflow.Visit.{mem-append}
use hydra_mind.Orchestration.Graph.Degrees.{occurs, open_requires, unmet}

-- all(r in done for r in n.requires) for the nodes of a key
unfoldable pub met : List WorkflowNodeSpec → String → List String → Bool
unfolding mem_string
met [] k done = true
met (n ∷ ns) k done =
    let rest = met ns k done in
    if str_eq n.key k
    then (if all (λ r. mem_string r done) n.requires then rest else false)
    else rest

-- An order in which a key of the blueprint comes once, after all that it requires.
pub data IsSchedule (nodes : List WorkflowNodeSpec) : List String → Type 0 where
  start : IsSchedule nodes []
  next :
      (done : List String) (k : String)
      → IsSchedule nodes done
      → mem_string k (keys_of nodes) ≡ true
      → mem_string k done ≡ false
      → met nodes k done ≡ true
      → IsSchedule nodes (done ++ k ∷ [])

unmet-all : (done rs : List String) → unmet done rs ≡ 0 → all (λ r. mem_string r done) rs ≡ true
unfolding unmet
unmet-all done [] h = refl
unmet-all done (r ∷ rs) h = ground (arith, unmet-all done rs)

pub open-met :
    (nodes : List WorkflowNodeSpec) (k : String) (done : List String)
    → open_requires nodes k done ≡ 0
    → met nodes k done ≡ true
unfolding open_requires met
open-met [] k done h = refl
open-met (n ∷ ns) k done h = ground (arith, open-met ns k done, unmet-all done n.requires)

unmet-more :
    (done more rs : List String)
    → ((x : String) → mem_string x done ≡ true → mem_string x more ≡ true)
    → all (λ r. mem_string r done) rs ≡ true
    → unmet more rs ≡ 0
unfolding unmet
unmet-more done more [] h m = refl
unmet-more done more (r ∷ rs) h m = ground (arith, unmet-more done more rs h, h r)

pub met-open :
    (nodes : List WorkflowNodeSpec) (k : String) (done more : List String)
    → ((x : String) → mem_string x done ≡ true → mem_string x more ≡ true)
    → met nodes k done ≡ true
    → open_requires nodes k more ≡ 0
unfolding open_requires met
met-open [] k done more h m = refl
met-open (n ∷ ns) k done more h m =
    ground (arith, met-open ns k done more h, unmet-more done more n.requires h)

all-more :
    (done more rs : List String)
    → ((x : String) → mem_string x done ≡ true → mem_string x more ≡ true)
    → all (λ r. mem_string r done) rs ≡ true
    → all (λ r. mem_string r more) rs ≡ true
all-more done more [] h m = refl
all-more done more (r ∷ rs) h m = ground (arith, all-more done more rs h, h r)

met-more :
    (nodes : List WorkflowNodeSpec) (k : String) (done more : List String)
    → ((x : String) → mem_string x done ≡ true → mem_string x more ≡ true)
    → met nodes k done ≡ true
    → met nodes k more ≡ true
unfolding met
met-more [] k done more h m = refl
met-more (n ∷ ns) k done more h m =
    ground (arith, met-more ns k done more h, all-more done more n.requires h)

schedule-within :
    (nodes : List WorkflowNodeSpec) (order : List String)
    → IsSchedule nodes order
    → (x : String) → mem_string x order ≡ true
    → mem_string x (keys_of nodes) ≡ true
unfolding mem_string
schedule-within nodes order IsSchedule.start x m = cc m
schedule-within nodes order (IsSchedule.next done k s known fresh ready) x m =
    ground (arith, mem-append x done (k ∷ []), schedule-within nodes done s x, eq_iff k x, known)

schedule-met :
    (nodes : List WorkflowNodeSpec) (order : List String)
    → IsSchedule nodes order
    → (x : String) → mem_string x order ≡ true
    → met nodes x (keys_of nodes) ≡ true
unfolding mem_string
schedule-met nodes order IsSchedule.start x m = cc m
schedule-met nodes order (IsSchedule.next done k s known fresh ready) x m = ground (
  arith,
  mem-append x done (k ∷ []),
  schedule-met nodes done s x,
  eq_iff k x,
  met-more nodes k done (keys_of nodes) (schedule-within nodes done s) ready,
)

met-known :
    (ns : List WorkflowNodeSpec) (keys : List String)
    → ((k : String) → mem_string k (keys_of ns) ≡ true → met ns k keys ≡ true)
    → all (λ n. all (λ r. mem_string r keys) n.requires) ns ≡ true
unfolding met mem_string
met-known [] keys h = refl
met-known (n ∷ ns) keys h =
    ground (arith, h n.key, eq_refl n.key, met-known ns keys (λ k m. ground (arith, h k)))

-- What a schedule with every key says of the requirements: they are keys.
pub scheduled-known :
    (nodes : List WorkflowNodeSpec) (order : List String)
    → IsSchedule nodes order
    → ((k : String) → mem_string k (keys_of nodes) ≡ true → mem_string k order ≡ true)
    → all (λ n. all (λ r. mem_string r (keys_of nodes)) n.requires) nodes ≡ true
scheduled-known nodes order s full =
    met-known nodes (keys_of nodes) (λ k m. schedule-met nodes order s k (full k m))

pub occurs-mem : (x : String) (xs : List String) → 1 ≤ occurs x xs → mem_string x xs ≡ true
unfolding occurs mem_string
occurs-mem x [] h = absurd (omega arith)
occurs-mem x (y ∷ ys) h = ground (arith, occurs-mem x ys)

pub mem-occurs : (x : String) (xs : List String) → mem_string x xs ≡ true → 1 ≤ occurs x xs
unfolding occurs mem_string
mem-occurs x [] h = cc h
mem-occurs x (y ∷ ys) h = ground (arith, mem-occurs x ys)

-- The list without the first entry of a text.
unfoldable drop_one : String → List String → List String
drop_one x [] = []
drop_one x (y ∷ ys) = let rest = drop_one x ys in if str_eq y x then ys else y ∷ rest

drop_one-occurs :
    (x y : String) (ys : List String)
    → 1 ≤ occurs x ys
    → occurs y ys ≡ one_if (str_eq x y) + occurs y (drop_one x ys)
unfolding drop_one occurs
drop_one-occurs x y [] h = absurd (omega arith)
drop_one-occurs x y (z ∷ ys) h =
    ground (arith, drop_one-occurs x y ys, eq_iff z x, eq_iff x y, eq_iff z y)

drop_one-length :
    (x : String) (ys : List String) → 1 ≤ occurs x ys → length ys ≡ suc (length (drop_one x ys))
unfolding drop_one occurs
drop_one-length x [] h = absurd (omega arith)
drop_one-length x (y ∷ ys) h = ground (arith, drop_one-length x ys)

-- Entries that are at most as frequent make a list that is at most as long.
pub occurs-length :
    (xs ys : List String) → ((x : String) → occurs x xs ≤ occurs x ys) → length xs ≤ length ys
unfolding occurs
occurs-length [] ys h = omega arith
occurs-length (x ∷ xs) ys h =
    omega (arith, drop_one-length x ys there, occurs-length xs (drop_one x ys) fewer)
  where
    there : 1 ≤ occurs x ys
    there = ground (arith, h x, eq_refl x)

    fewer : (y : String) → occurs y xs ≤ occurs y (drop_one x ys)
    fewer y = ground (arith, h y, drop_one-occurs x y ys there)

-- When the list is as long, it has every entry.
pub occurs-full :
    (xs ys : List String) (y : String)
    → ((x : String) → occurs x xs ≤ occurs x ys)
    → length ys ≤ length xs
    → occurs y ys ≤ occurs y xs
unfolding occurs
occurs-full [] [] y h l = omega arith
occurs-full [] (z ∷ ys) y h l = absurd (omega arith)
occurs-full (x ∷ xs) ys y h l = ground (
  arith,
  drop_one-occurs x y ys there,
  occurs-full xs (drop_one x ys) y fewer (omega (arith, drop_one-length x ys there)),
)
  where
    there : 1 ≤ occurs x ys
    there = ground (arith, h x, eq_refl x)

    fewer : (y : String) → occurs y xs ≤ occurs y (drop_one x ys)
    fewer y = ground (arith, h y, drop_one-occurs x y ys there)
