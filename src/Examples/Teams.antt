-- ===== src/Examples/Teams.antt =====
-- Teams, votes and blueprints.
use hydra_mind.Prelude.{
  ℕ, get_elem?, ◌*◌, ◌%◌, ◌<◌, length, String, ◌≡◌, refl, true, false, none, some, [], ◌∷◌, ◌⊎◌,
  ◌↔◌, ok, err, unexecuted_protocol, List, arith,
}
use hydra_mind.Prelude.Sort.{mem_string}
use hydra_mind.Mas.Contracts.{
  debate_rounds, CollaborationMode, CollaborationTopology, ArbitrationStrategy, distinct,
}
use hydra_mind.Mas.Capability.{executed_pair, require_executed_team}
use hydra_mind.Mas.Votes.{MemberVoteRecord, build_vote_outcome}
use hydra_mind.Mas.Votes.Majority.{IsMajority, votes_for, majority_wins}
use hydra_mind.Kernel.Contracts.{Interaction, acted_agent_ids}
use hydra_mind.Kernel.Scheduler.{Strategy, strategy_for, select_strategy, next_turn}
use hydra_mind.Kernel.Scheduler.Selection.{selection_matches_capability}
use hydra_mind.Kernel.Runner.{run_turns}
use hydra_mind.Kernel.Runner.Debate.{debate_runs_rounds}
use hydra_mind.Kernel.Runner.Plan.{has_coordinator, plan, run_follows_plan}
use hydra_mind.Control.Workflow.{descendant_keys}
use hydra_mind.Control.Workflow.Descendants.{Below, descendant_keys-Below}
use hydra_mind.Examples.Data.{three, led, led_team, chain}

selection_matches_capability_example :
    ((executed_pair CollaborationMode.team CollaborationTopology.coordinator ≡ true)
      × (s : Strategy) × (strategy_for CollaborationMode.team CollaborationTopology.coordinator
          ≡ some s)
      × (select_strategy led ≡ ok s)
      × (require_executed_team led_team ≡ ok tt))
    ⊎ ((executed_pair CollaborationMode.team CollaborationTopology.coordinator ≡ false)
        × (strategy_for CollaborationMode.team CollaborationTopology.coordinator ≡ none)
        × (select_strategy led ≡ err unexecuted_protocol)
        × (require_executed_team led_team ≡ err unexecuted_protocol))
selection_matches_capability_example = selection_matches_capability led_team

run_follows_plan_example :
    (j : Interaction) × (run_turns 4 (λ t. "done") Strategy.coordinator three ≡ ok j)
    × (acted_agent_ids j ≡ plan Strategy.coordinator (some "lead") ("lead" ∷ "a" ∷ "b" ∷ []))
    × (next_turn Strategy.coordinator j ≡ ok none)
unfolding distinct plan has_coordinator hydra_mind.Prelude.Sort.mem_string
run_follows_plan_example =
    run_follows_plan (λ t. "done") Strategy.coordinator three 4 refl refl refl refl (omega arith)

abbrev vote_of : String → String → MemberVoteRecord
vote_of agent_id option = record {
  agent_id = agent_id;
  raw = option;
  canonical = option;
  valid = true;
}

abbrev ballots : List MemberVoteRecord
ballots = vote_of "a" "yes" ∷ vote_of "b" "no" ∷ vote_of "c" "yes" ∷ []

majority_wins_example :
    (((o : String) → votes_for o ballots ≡ 0)
      × ((build_vote_outcome ballots ArbitrationStrategy.majority).winner ≡ none)
      × ((build_vote_outcome ballots ArbitrationStrategy.majority).winner_count ≡ 0)
      × ((build_vote_outcome ballots ArbitrationStrategy.majority).tie ≡ false))
    ⊎ ((w : String) × IsMajority ballots
          (build_vote_outcome ballots ArbitrationStrategy.majority)
          w)
majority_wins_example = majority_wins ballots

descendant_keys-Below_example :
    (mem_string "test" (descendant_keys chain ("plan" ∷ [])) ≡ true)
    ↔ Below chain.nodes ("plan" ∷ []) "test"
descendant_keys-Below_example = descendant_keys-Below chain ("plan" ∷ []) "test"

abbrev debate_of_two : Interaction
debate_of_two = record three {
  member_ids = "a" ∷ "b" ∷ [];
  protocol = record led {
    mode = CollaborationMode.debate;
    topology = CollaborationTopology.broadcast;
    coordinator_id = none;
  };
}

debate_runs_rounds_example :
    (j : Interaction) × (run_turns 4 (λ t. "done") Strategy.debate debate_of_two ≡ ok j)
    × (length j.turns ≡ 2 * 2)
    × ((k : ℕ)
        → k < 2 * 2
        → get_elem? (acted_agent_ids j) k ≡ get_elem? {A = String} ("a" ∷ "b" ∷ []) (k % 2))
    × (next_turn Strategy.debate j ≡ ok none)
unfolding debate_rounds
debate_runs_rounds_example =
    debate_runs_rounds (λ t. "done") 2 "a" ("b" ∷ []) debate_of_two 4 refl refl refl (omega arith)
