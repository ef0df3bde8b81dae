-- ===== src/Mas/Votes.antt =====
-- src/hydramind/mas/protocol_outcomes.py: the tally of typed votes.
pub mod Majority
use hydra_mind.Prelude.{
  ℕ, ◌+◌, String, Bool, true, false, Option, none, some, List, [], ◌∷◌, str_eq, if◌then◌else◌, ltb,
  leb, ◌==◌, length, map, keep,
}
use Prim.Native.Nat.{max}
use hydra_mind.Prelude.Sort.{sort_strings}
use hydra_mind.Prelude.Dict
use hydra_mind.Prelude.Dict.{Dict}
use hydra_mind.Mas.Contracts.{ArbitrationStrategy, is_majority}

pub record MemberVoteRecord : Type 0 where
  pub agent_id : String
  pub raw : String
  pub canonical : String
  pub valid : Bool

pub record VoteOutcome : Type 0 where
  pub arbitration : ArbitrationStrategy
  pub tally : Dict ℕ
  pub votes : List MemberVoteRecord
  pub invalid : List MemberVoteRecord
  pub winner : Option String
  pub winner_count : ℕ
  pub tie : Bool
  pub tied_options : List String

pub record CoordinatorOutcome : Type 0 where
  pub coordinator_id : Option String
  pub summary : String

abbrev pub or_zero : Option ℕ → ℕ
or_zero none = 0
or_zero (some n) = n

-- The loop's two accumulators.
unfoldable pub tally_votes : Dict ℕ → List MemberVoteRecord → Dict ℕ
unfolding Dict.get Dict.put
tally_votes tally [] = tally
tally_votes tally (r ∷ rs) =
    tally_votes
      (if r.valid
        then Dict.put tally r.canonical (or_zero (Dict.get tally r.canonical) + 1)
        else tally)
      rs

unfoldable pub invalid_votes : List MemberVoteRecord → List MemberVoteRecord
invalid_votes [] = []
invalid_votes (r ∷ rs) = let rest = invalid_votes rs in if r.valid then rest else r ∷ rest

-- max(tally.values()), of a tally that is not empty
unfoldable pub top_count : Dict ℕ → ℕ
top_count [] = 0
top_count ((k, n) ∷ d) = max n (top_count d)

-- The options whose count is `n`.
unfoldable pub options_with : ℕ → Dict ℕ → List String
options_with n [] = []
options_with n ((k, c) ∷ d) = let rest = options_with n d in if c == n then k ∷ rest else rest

unfoldable pub top_options : Dict ℕ → List String
unfolding sort_strings options_with top_count
top_options tally = sort_strings (options_with (top_count tally) tally)

abbrev no_winner : ArbitrationStrategy → Dict ℕ → List MemberVoteRecord → VoteOutcome
no_winner arbitration tally votes = record {
  arbitration = arbitration;
  tally = tally;
  votes = votes;
  invalid = invalid_votes votes;
  winner = none;
  winner_count = 0;
  tie = false;
  tied_options = [];
}

-- The outcome for the sorted list of top options.
unfoldable pub declare :
    ArbitrationStrategy → Dict ℕ → List MemberVoteRecord → List String → VoteOutcome
unfolding top_count invalid_votes
declare arbitration tally votes [] = no_winner arbitration tally votes
declare arbitration tally votes (first ∷ []) = record (no_winner arbitration tally votes) {
  winner = some first;
  winner_count = top_count tally;
}
declare arbitration tally votes (first ∷ second ∷ rest) =
    record (no_winner arbitration tally votes) {
      winner = some first;
      winner_count = top_count tally;
      tie = true;
      tied_options = first ∷ second ∷ rest;
    }

unfoldable pub build_vote_outcome : List MemberVoteRecord → ArbitrationStrategy → VoteOutcome
unfolding tally_votes top_options declare
build_vote_outcome votes arbitration =
    let tally = tally_votes [] votes in
    if is_majority arbitration
    then declare arbitration tally votes (top_options tally)
    else no_winner arbitration tally votes
