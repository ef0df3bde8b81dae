-- ===== src/Mas/Contracts.antt =====
-- src/hydramind/mas/contracts.py: enums, protocol and team, with the checks of their validators.
use hydra_mind.Prelude.{
  ℕ, suc, pos, String, Bool, true, false, not, ◌&&◌, ◌||◌, Option, none, some, List, [], ◌∷◌, ◌++◌,
  map, Json, num, Result, ok, err, value_error, ◌>>=◌, ◌>>◌, guard, raise_if, str_eq, if◌then◌else◌,
  ltb, length, all, is_some,
}
use hydra_mind.Prelude.Dict
use hydra_mind.Prelude.Dict.{Payload}
use hydra_mind.Prelude.Text.{strip}
use hydra_mind.Prelude.Sort.{mem_string}

pub data CollaborationMode : Type 0 where
  team delegation debate vote : CollaborationMode

pub data CollaborationTopology : Type 0 where
  broadcast coordinator pipeline : CollaborationTopology

pub data AggregationStrategy : Type 0 where
  collect coordinator_summary vote : AggregationStrategy

pub data ArbitrationStrategy : Type 0 where
  coordinator majority no_arbitration : ArbitrationStrategy

pub data WorkspaceScope : Type 0 where
  task session team : WorkspaceScope

pub record AgentSpec : Type 0 where
  pub id : String
  pub role : String
  pub description : String
  pub instructions : String
  pub prompt_ref : Option String
  pub tools : List String
  pub metadata : Payload

pub record CollaborationProtocol : Type 0 where
  pub mode : CollaborationMode
  pub topology : CollaborationTopology
  pub aggregation : AggregationStrategy
  pub arbitration : ArbitrationStrategy
  pub coordinator_id : Option String
  pub vote_options : List String
  pub metadata : Payload

pub record SharedWorkspace : Type 0 where
  pub id : String
  pub scope : WorkspaceScope
  pub metadata : Payload

pub record TeamSpec : Type 0 where
  pub id : String
  pub members : List AgentSpec
  pub protocol : CollaborationProtocol
  pub workspace : Option SharedWorkspace
  pub tools : List String
  pub metadata : Payload

-- Every text once: no `item` with `items.count(item) > 1`.
unfoldable pub distinct : List String → Bool
unfolding mem_string
distinct [] = true
distinct (x ∷ xs) = not (mem_string x xs) && distinct xs

abbrev pub default_debate_rounds : ℕ
default_debate_rounds = 2

-- The value at "rounds", or the default; anything but a positive `int` is refused.
unfoldable pub rounds_of : Option Json → Result ℕ
rounds_of none = ok default_debate_rounds
rounds_of (some (num (pos (suc n)))) = ok (suc n)
rounds_of _ = err value_error

unfoldable pub debate_rounds : CollaborationProtocol → Result ℕ
unfolding rounds_of Dict.get
debate_rounds p = rounds_of (Dict.get p.metadata "rounds")

-- The elements stripped, refused if one is empty or comes twice.
unfoldable pub unique_from : List String → List String → Result (List String)
unfolding mem_string strip
unique_from normalized [] = ok normalized
unique_from normalized (item ∷ rest) =
    let text = strip item in
    let later = unique_from (normalized ++ text ∷ []) rest in
    if str_eq text ""
    then err value_error
    else if mem_string text normalized
    then err value_error
    else later

unfoldable pub unique_non_empty_strings : List String → Result (List String)
unfolding unique_from
unique_non_empty_strings values = unique_from [] values

abbrev pub is_debate : CollaborationMode → Bool
is_debate CollaborationMode.debate = true
is_debate _ = false

abbrev pub is_vote : CollaborationMode → Bool
is_vote CollaborationMode.vote = true
is_vote _ = false

abbrev pub is_delegation : CollaborationMode → Bool
is_delegation CollaborationMode.delegation = true
is_delegation _ = false

abbrev pub is_broadcast : CollaborationTopology → Bool
is_broadcast CollaborationTopology.broadcast = true
is_broadcast _ = false

abbrev pub is_coordinator : CollaborationTopology → Bool
is_coordinator CollaborationTopology.coordinator = true
is_coordinator _ = false

abbrev pub is_vote_aggregation : AggregationStrategy → Bool
is_vote_aggregation AggregationStrategy.vote = true
is_vote_aggregation _ = false

abbrev pub is_summary : AggregationStrategy → Bool
is_summary AggregationStrategy.coordinator_summary = true
is_summary _ = false

abbrev pub is_majority : ArbitrationStrategy → Bool
is_majority ArbitrationStrategy.majority = true
is_majority _ = false

-- `if mode is DEBATE: debate_rounds(self)`
unfoldable pub check_debate : CollaborationProtocol → Result (Unit {0})
unfolding debate_rounds
check_debate p = if is_debate p.mode then (do n ← debate_rounds p; ok tt) else ok tt

unfoldable pub check_vote : CollaborationProtocol → Result (Unit {0})
check_vote p =
    if is_vote p.mode
    then (do
      guard (is_broadcast p.topology) value_error
      guard (is_vote_aggregation p.aggregation) value_error
      guard (is_majority p.arbitration) value_error)
    else raise_if (is_vote_aggregation p.aggregation) value_error

unfoldable pub check_summary : CollaborationProtocol → Result (Unit {0})
check_summary p =
    if is_summary p.aggregation
    then (do
      guard (is_coordinator p.topology) value_error
      guard (is_some p.coordinator_id) value_error)
    else ok tt

unfoldable pub check_delegation : CollaborationProtocol → Result (Unit {0})
check_delegation p =
    if is_delegation p.mode
    then (do
      guard (is_coordinator p.topology) value_error
      guard (is_some p.coordinator_id) value_error)
    else ok tt

-- `CollaborationProtocol._validate_protocol_consistency`
unfoldable pub validate_protocol : CollaborationProtocol → Result (Unit {0})
unfolding check_debate check_vote check_summary check_delegation
validate_protocol p = do
  check_debate p
  check_vote p
  check_summary p
  check_delegation p
  raise_if (is_coordinator p.topology && not (is_some p.coordinator_id)) value_error

-- `text = value.strip(); if not text: raise ...; return text`
unfoldable pub non_empty : String → Result String
unfolding strip
non_empty value = let text = strip value in if str_eq text "" then err value_error else ok text

-- `CollaborationProtocol._coordinator_not_blank`
unfoldable pub coordinator_not_blank : Option String → Result (Option String)
unfolding non_empty
coordinator_not_blank none = ok none
coordinator_not_blank (some c) = do text ← non_empty c; ok (some text)

-- `CollaborationProtocol(...)`: the field validators, then the check of the whole.
unfoldable pub make_protocol : CollaborationProtocol → Result CollaborationProtocol
unfolding unique_non_empty_strings coordinator_not_blank validate_protocol
make_protocol p = do
  chief ← coordinator_not_blank p.coordinator_id
  options ← unique_non_empty_strings p.vote_options
  let q = record p { coordinator_id = chief; vote_options = options }
  validate_protocol q
  ok q

-- `AgentSpec(...)`
unfoldable pub make_agent : AgentSpec → Result AgentSpec
unfolding unique_non_empty_strings non_empty
make_agent a = do
  name ← non_empty a.id
  part ← non_empty a.role
  allowed ← unique_non_empty_strings a.tools
  ok (record a { id = name; role = part; tools = allowed })

-- `SharedWorkspace(...)`
unfoldable pub make_workspace : SharedWorkspace → Result SharedWorkspace
unfolding non_empty
make_workspace w = do name ← non_empty w.id; ok (record w { id = name })

-- coordinator_id is not None and coordinator_id not in members
unfoldable pub foreign_coordinator : Option String → List String → Bool
unfolding mem_string
foreign_coordinator none members = false
foreign_coordinator (some c) members = not (mem_string c members)

unfoldable pub member_tools_allowed : List String → AgentSpec → Bool
unfolding mem_string
member_tools_allowed allowed m = all (λ t. mem_string t allowed) m.tools

abbrev pub member_ids_of : List AgentSpec → List String
member_ids_of = map (λ m. m.id)

-- `TeamSpec._validate_team`
unfoldable pub validate_team : TeamSpec → Result (Unit {0})
unfolding distinct foreign_coordinator member_tools_allowed
validate_team t = do
  guard (ltb 0 (length t.members)) value_error
  guard (distinct (member_ids_of t.members)) value_error
  raise_if (foreign_coordinator t.protocol.coordinator_id (member_ids_of t.members)) value_error
  raise_if (is_coordinator t.protocol.topology && not (is_some t.protocol.coordinator_id))
      value_error
  raise_if ((is_debate t.protocol.mode || is_vote t.protocol.mode) && ltb (length t.members) 2)
      value_error
  raise_if
      (is_delegation t.protocol.mode
        && (not (is_some t.protocol.coordinator_id) || ltb (length t.members) 2))
      value_error
  guard (not (ltb 0 (length t.tools)) || all (member_tools_allowed t.tools) t.members) value_error

-- `TeamSpec(...)`
unfoldable pub make_team : TeamSpec → Result TeamSpec
unfolding non_empty unique_non_empty_strings validate_team
make_team t = do
  name ← non_empty t.id
  allowed ← unique_non_empty_strings t.tools
  let u = record t { id = name; tools = allowed }
  validate_team u
  ok u

-- `TeamSpec.declared_tools`: the texts of a list that are not there yet, appended.
unfoldable pub append_new : List String → List String → List String
unfolding mem_string
append_new tools [] = tools
append_new tools (t ∷ ts) = append_new (if mem_string t tools then tools else tools ++ t ∷ []) ts

unfoldable pub append_tools : List String → List AgentSpec → List String
unfolding append_new
append_tools tools [] = tools
append_tools tools (m ∷ ms) = append_tools (append_new tools m.tools) ms

unfoldable pub declared_tools : TeamSpec → List String
unfolding append_new append_tools
declared_tools t = append_tools (append_new [] t.tools) t.members
