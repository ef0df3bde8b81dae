-- ===== src/Kernel/Runner/Plan.antt =====
-- Each strategy but the debate works through a list of agents that is known beforehand.
use hydra_mind.Prelude.{
  ℕ, zero, suc, ◌≤◌, String, ◌≡◌, refl, ap, sym, ◌∙◌, Bool, true, false, not, ◌||◌, Option, none,
  some, List, [], ◌∷◌, ◌++◌, map, ok, arith, keep, length, eq_iff, eq_refl,
}
use mathlib.Core.List.{append_assoc, append-nil}
use hydra_mind.Prelude.Sort.{mem_string}
use hydra_mind.Mas.Contracts.{distinct}
use hydra_mind.Kernel.Contracts.{Interaction, Turn, acted_agent_ids}
use hydra_mind.Kernel.Scheduler.{
  Strategy, is_agent, first_unacted, first_worker, idle_coordinator, or_else, turn_for,
  pending_turn, next_turn, next_unacted_turn, coordinator_next, delegation_next,
}
use hydra_mind.Kernel.Runner.{run_turns, record_member_message}

-- The coordinator as a list.
abbrev pub chief : Option String → List String
chief none = []
chief (some c) = c ∷ []

-- The members but the coordinator.
abbrev pub workers : Option String → List String → List String
workers c = keep (λ m. not (is_agent c m))

-- Who acts, in order: the members, or the members with the coordinator last or first.
unfoldable pub plan : Strategy → Option String → List String → List String
plan Strategy.coordinator c members = workers c members ++ chief c
plan Strategy.delegation c members = chief c ++ workers c members
plan _ c members = members

abbrev pub is_planned : Strategy → Bool
is_planned Strategy.debate = false
is_planned _ = true

first_worker-workers :
    (c : Option String) (acted ms : List String)
    → first_worker c acted ms ≡ first_unacted acted (workers c ms)
unfolding first_worker first_unacted
first_worker-workers c acted [] = refl
first_worker-workers c acted (m ∷ ms) = ground (arith, first_worker-workers c acted ms)

idle-chief :
    (c : Option String) (acted : List String)
    → idle_coordinator c acted ≡ first_unacted acted (chief c)
unfolding idle_coordinator first_unacted
idle-chief c acted = ground arith

first_unacted-append :
    (acted xs ys : List String)
    → first_unacted acted (xs ++ ys) ≡ or_else (first_unacted acted xs) (first_unacted acted ys)
unfolding first_unacted
first_unacted-append acted [] ys = refl
first_unacted-append acted (x ∷ xs) ys = ground (arith, first_unacted-append acted xs ys)

abbrev plan_of : Strategy → Interaction → List String
plan_of s i = plan s i.protocol.coordinator_id i.member_ids

next-plan :
    (s : Strategy) (i : Interaction)
    → is_planned s ≡ true
    → next_turn s i ≡ ok (turn_for i (first_unacted (acted_agent_ids i) (plan_of s i)))
unfolding next_turn next_unacted_turn coordinator_next delegation_next plan
next-plan Strategy.broadcast i h = refl
next-plan Strategy.pipeline i h = refl
next-plan Strategy.vote i h = refl
next-plan Strategy.debate i h = cc
next-plan Strategy.coordinator i h =
    rw (first_worker-workers, idle-chief, first_unacted-append) refl
next-plan Strategy.delegation i h = rw (first_worker-workers, idle-chief, first_unacted-append) refl

mem-append :
    (x : String) (xs ys : List String)
    → mem_string x (xs ++ ys) ≡ (mem_string x xs || mem_string x ys)
unfolding mem_string
mem-append x [] ys = refl
mem-append x (y ∷ xs) ys = ground (arith, mem-append x xs ys)

-- Who has acted is passed over.
skip_acted :
    (acted xs ys : List String)
    → ((x : String) → mem_string x xs ≡ true → mem_string x acted ≡ true)
    → first_unacted acted (xs ++ ys) ≡ first_unacted acted ys
unfolding first_unacted mem_string
skip_acted acted [] ys h = refl
skip_acted acted (x ∷ xs) ys h =
    rw (h x (ground (arith, eq_refl x)), skip_acted acted xs ys (λ y m. h y (ground arith))) refl

distinct-middle :
    (xs ys : List String) (y : String) → distinct (xs ++ y ∷ ys) ≡ true → mem_string y xs ≡ false
unfolding distinct mem_string
distinct-middle [] ys y h = refl
distinct-middle (x ∷ xs) ys y h =
    ground (arith, mem-append x xs (y ∷ ys), distinct-middle xs ys y, eq_iff x y, eq_iff y x)

agents-append :
    (ts us : List Turn)
    → map (λ x. x.agent_id) (ts ++ us) ≡ map (λ x. x.agent_id) ts ++ map (λ x. x.agent_id) us
agents-append [] us = refl
agents-append (t ∷ ts) us = ap (λ r. t.agent_id ∷ r) (agents-append ts us)

pub acted-record :
    (i : Interaction) (t : Turn) (content : String)
    → acted_agent_ids (record_member_message i t content) ≡ acted_agent_ids i ++ t.agent_id ∷ []
unfolding record_member_message
acted-record i t content = agents-append i.turns _

pub run_none :
    (fuel : ℕ) (reply : Turn → String) (s : Strategy) (i : Interaction)
    → next_turn s i ≡ ok none
    → run_turns fuel reply s i ≡ ok i
unfolding run_turns
run_none zero reply s i h = refl
run_none (suc fuel) reply s i h = rw h refl

-- What is left of the plan is carried out.
module _ (reply : Turn → String) (s : Strategy) (planned : is_planned s ≡ true) where
  next_is_first :
      (rest : List String) (i : Interaction)
      → plan_of s i ≡ acted_agent_ids i ++ rest
      → next_turn s i ≡ ok (turn_for i (first_unacted (acted_agent_ids i) rest))
  next_is_first rest i split =
      next-plan s i planned
      ∙ ap (λ (xs : List String). ok (turn_for i (first_unacted (acted_agent_ids i) xs))) split
      ∙ ap (λ (o : Option String). ok (turn_for i o))
          (skip_acted (acted_agent_ids i) (acted_agent_ids i) rest (λ x m. m))

  first_is_idle :
      (m : String) (rest acted : List String)
      → mem_string m acted ≡ false
      → first_unacted acted (m ∷ rest) ≡ some m
  unfolding first_unacted
  first_is_idle m rest acted idle = rw idle refl

  in_plan :
      (m : String) (rest : List String) (i : Interaction)
      → plan_of s i ≡ acted_agent_ids i ++ m ∷ rest
      → mem_string m (plan_of s i) ≡ true
  unfolding mem_string
  in_plan m rest i split =
      rw split (ground (arith, mem-append m (acted_agent_ids i) (m ∷ rest), eq_refl m))

  rest_runs :
      (rest : List String) (fuel : ℕ) (i : Interaction)
      → length rest ≤ fuel
      → distinct (plan_of s i) ≡ true
      → plan_of s i ≡ acted_agent_ids i ++ rest
      → ((x : String) → mem_string x (plan_of s i) ≡ true → mem_string x i.member_ids ≡ true)
      → (j : Interaction) × (run_turns fuel reply s i ≡ ok j)
        × (acted_agent_ids j ≡ plan_of s i)
        × (next_turn s j ≡ ok none)
  unfolding run_turns record_member_message first_unacted
  rest_runs [] fuel i enough once split members =
      let ended : next_turn s i ≡ ok none = next_is_first [] i split in
      (i, run_none fuel reply s i ended, sym (split ∙ append-nil (acted_agent_ids i)), ended)
  rest_runs (m ∷ rest) zero i enough once split members = absurd (omega (arith, enough))
  rest_runs (m ∷ rest) (suc fuel) i enough once split members =
      let t = pending_turn i m in
      let idle = distinct-middle (acted_agent_ids i) rest m (rw (sym split) once) in
      let next : next_turn s i ≡ ok (some t) =
        next_is_first (m ∷ rest) i split
        ∙ ap (λ (o : Option String). ok (turn_for i o))
            (first_is_idle m rest (acted_agent_ids i) idle) in
      let (j, ran, acted, ended) =
        rest_runs rest fuel (record_member_message i t (reply t)) (omega (arith, enough)) once
          (split
            ∙ sym (append_assoc (acted_agent_ids i) (m ∷ []) rest)
            ∙ ap (λ (xs : List String). xs ++ rest) (sym (acted-record i t (reply t))))
          members in
      (j, rw (next, members m (in_plan m rest i split)) ran, acted, ended)

mem-workers :
    (c : Option String) (x : String) (ms : List String)
    → mem_string x ms ≡ false
    → mem_string x (workers c ms) ≡ false
unfolding mem_string
mem-workers c x [] h = refl
mem-workers c x (m ∷ ms) h = ground (arith, mem-workers c x ms)

chief-no_worker : (c : String) (ms : List String) → mem_string c (workers (some c) ms) ≡ false
unfolding mem_string
chief-no_worker c [] = refl
chief-no_worker c (m ∷ ms) = ground (arith, chief-no_worker c ms)

distinct-workers :
    (c : Option String) (ms : List String) → distinct ms ≡ true → distinct (workers c ms) ≡ true
unfolding distinct
distinct-workers c [] h = refl
distinct-workers c (m ∷ ms) h = ground (arith, distinct-workers c ms, mem-workers c m ms)

distinct-last :
    (xs : List String) (y : String)
    → distinct xs ≡ true
    → mem_string y xs ≡ false
    → distinct (xs ++ y ∷ []) ≡ true
unfolding distinct mem_string
distinct-last [] y h k = refl
distinct-last (x ∷ xs) y h k =
    ground (arith, mem-append x xs (y ∷ []), distinct-last xs y, eq_iff x y, eq_iff y x)

distinct-plan :
    (s : Strategy) (c : Option String) (ms : List String)
    → distinct ms ≡ true
    → distinct (plan s c ms) ≡ true
unfolding plan distinct mem_string
distinct-plan Strategy.coordinator none ms h =
    rw (append-nil (workers none ms)) (distinct-workers none ms h)
distinct-plan Strategy.coordinator (some c) ms h =
    distinct-last (workers (some c) ms) c (distinct-workers (some c) ms h) (chief-no_worker c ms)
distinct-plan Strategy.delegation none ms h = distinct-workers none ms h
distinct-plan Strategy.delegation (some c) ms h =
    rw (chief-no_worker c ms) (distinct-workers (some c) ms h)
distinct-plan Strategy.broadcast c ms h = h
distinct-plan Strategy.pipeline c ms h = h
distinct-plan Strategy.vote c ms h = h
distinct-plan Strategy.debate c ms h = h

workers-members :
    (c : Option String) (x : String) (ms : List String)
    → mem_string x (workers c ms) ≡ true
    → mem_string x ms ≡ true
unfolding mem_string
workers-members c x [] h = h
workers-members c x (m ∷ ms) h = ground (arith, workers-members c x ms)

-- The coordinator, if there is one, is a member.
unfoldable pub has_coordinator : Option String → List String → Bool
unfolding mem_string
has_coordinator none ms = true
has_coordinator (some c) ms = mem_string c ms

chief-members :
    (c : Option String) (x : String) (ms : List String)
    → has_coordinator c ms ≡ true
    → mem_string x (chief c) ≡ true
    → mem_string x ms ≡ true
unfolding has_coordinator mem_string
chief-members none x ms h m = cc m
chief-members (some c) x ms h m = ground (arith, eq_iff c x)

plan-members :
    (s : Strategy) (c : Option String) (ms : List String)
    → has_coordinator c ms ≡ true
    → (x : String) → mem_string x (plan s c ms) ≡ true
    → mem_string x ms ≡ true
unfolding plan
plan-members Strategy.coordinator c ms h x m =
    ground
      (arith, mem-append x (workers c ms) (chief c), workers-members c x ms, chief-members c x ms h)
plan-members Strategy.delegation c ms h x m =
    ground
      (arith, mem-append x (chief c) (workers c ms), workers-members c x ms, chief-members c x ms h)
plan-members Strategy.broadcast c ms h x m = m
plan-members Strategy.pipeline c ms h x m = m
plan-members Strategy.vote c ms h x m = m
plan-members Strategy.debate c ms h x m = m

-- An interaction of distinct members without a turn, its coordinator one of them if it has one, run by
-- any strategy but the debate with fuel for at least as many turns as its plan has, ends without an
-- exception: each agent of the plan has acted once, in the order of the plan, and the strategy has no
-- next turn. The plan is the list of the members; a coordinator topology has the coordinator after all
-- other members, and a delegation has it before them.
pub run_follows_plan :
    (reply : Turn → String) (s : Strategy) (i : Interaction) (fuel : ℕ)
    → is_planned s ≡ true
    → distinct i.member_ids ≡ true
    → has_coordinator i.protocol.coordinator_id i.member_ids ≡ true
    → i.turns ≡ []
    → length (plan s i.protocol.coordinator_id i.member_ids) ≤ fuel
    → (j : Interaction) × (run_turns fuel reply s i ≡ ok j)
      × (acted_agent_ids j ≡ plan s i.protocol.coordinator_id i.member_ids)
      × (next_turn s j ≡ ok none)
run_follows_plan reply s i fuel planned once led fresh enough =
    rest_runs reply s planned (plan_of s i) fuel i enough
      (distinct-plan s i.protocol.coordinator_id i.member_ids once) (rw fresh refl)
      (plan-members s i.protocol.coordinator_id i.member_ids led)
