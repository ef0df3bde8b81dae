-- ===== src/Kernel/Scheduler.antt =====
-- src/hydramind/kernel/scheduler.py: the strategies that choose the next turn and what it may read.
pub mod Selection
use hydra_mind.Prelude.{
  ◌*◌, ◌%◌, String, Bool, false, not, ◌&&◌, Option, none, some, List, [], ◌∷◌, Result, ok, err,
  unexecuted_protocol, ◌>>=◌, str_eq, if◌then◌else◌, leb, length, get_elem?,
}
use hydra_mind.Prelude.Sort.{mem_string}
use hydra_mind.Mas.Contracts.{
  CollaborationMode, CollaborationTopology, CollaborationProtocol, debate_rounds,
}
use hydra_mind.Mas.Capability.{executed_protocol_violations}
use hydra_mind.Kernel.Contracts.{Message, Turn, TurnStatus, Interaction, acted_agent_ids}

pub data Strategy : Type 0 where
  broadcast pipeline coordinator debate vote delegation : Strategy

-- `Turn(index=len(interaction.turns), agent_id=..., status=PENDING)`. The validators of `Turn` strip the id of
-- the agent and refuse a blank one; the ids of an agent of a team are stripped and not blank already.
abbrev pub pending_turn : Interaction → String → Turn
pending_turn i agent = record {
  index = length i.turns;
  agent_id = agent;
  status = TurnStatus.pending;
  message_ids = [];
  metadata = [];
}

-- coordinator is not None and member_id == coordinator
abbrev pub is_agent : Option String → String → Bool
is_agent none m = false
is_agent (some c) m = str_eq m c

-- The first member that has not acted.
unfoldable pub first_unacted : List String → List String → Option String
unfolding mem_string
first_unacted acted [] = none
first_unacted acted (m ∷ ms) = if not (mem_string m acted) then some m else first_unacted acted ms

-- The first member, but the coordinator, that has not acted.
unfoldable pub first_worker : Option String → List String → List String → Option String
unfolding mem_string
first_worker c acted [] = none
first_worker c acted (m ∷ ms) =
    if not (is_agent c m) && not (mem_string m acted) then some m else first_worker c acted ms

abbrev pub turn_for : Interaction → Option String → Option Turn
turn_for i none = none
turn_for i (some m) = some (pending_turn i m)

-- `_next_unacted_turn`
unfoldable pub next_unacted_turn : Interaction → Option Turn
unfolding first_unacted
next_unacted_turn i = turn_for i (first_unacted (acted_agent_ids i) i.member_ids)

-- The coordinator, if there is one that has not acted.
unfoldable pub idle_coordinator : Option String → List String → Option String
unfolding mem_string
idle_coordinator none acted = none
idle_coordinator (some c) acted = if not (mem_string c acted) then some c else none

abbrev pub or_else {ℓ} : {A : Type ℓ} → Option A → Option A → Option A
or_else none b = b
or_else (some a) b = some a

-- `CoordinatorStrategy.next_turn`
unfoldable pub coordinator_next : Interaction → Option Turn
unfolding first_worker idle_coordinator
coordinator_next i =
    let c = i.protocol.coordinator_id in
    let acted = acted_agent_ids i in
    turn_for i (or_else (first_worker c acted i.member_ids) (idle_coordinator c acted))

-- `DelegationStrategy.next_turn`
unfoldable pub delegation_next : Interaction → Option Turn
unfolding first_worker idle_coordinator
delegation_next i =
    let c = i.protocol.coordinator_id in
    let acted = acted_agent_ids i in
    turn_for i (or_else (idle_coordinator c acted) (first_worker c acted i.member_ids))

-- `DebateStrategy.next_turn`
unfoldable pub debate_next : Interaction → Result (Option Turn)
unfolding debate_rounds
debate_next i = elim i.member_ids [
  | [] ↦ ok none
  | m ∷ ms ↦ (do
    rounds ← debate_rounds i.protocol
    let n = length i.member_ids
    let total = length i.turns
    if leb (rounds * n) total
        then ok none
        else ok (turn_for i (get_elem? i.member_ids (total % n))))
]

unfoldable pub next_turn : Strategy → Interaction → Result (Option Turn)
unfolding next_unacted_turn coordinator_next delegation_next debate_next
next_turn broadcast i = ok (next_unacted_turn i)
next_turn pipeline i = ok (next_unacted_turn i)
next_turn coordinator i = ok (coordinator_next i)
next_turn debate i = debate_next i
next_turn vote i = ok (next_unacted_turn i)
next_turn delegation i = ok (delegation_next i)

-- `visible_messages` of each strategy
unfoldable pub visible_messages : Strategy → Interaction → Turn → List Message
visible_messages broadcast i t = []
visible_messages pipeline i t = i.messages
visible_messages coordinator i t =
    if is_agent i.protocol.coordinator_id t.agent_id then i.messages else []
visible_messages debate i t = i.messages
visible_messages vote i t = []
visible_messages delegation i t =
    if is_agent i.protocol.coordinator_id t.agent_id then [] else i.messages

-- `_STRATEGIES.get((mode, topology))`
unfoldable pub strategy_for : CollaborationMode → CollaborationTopology → Option Strategy
strategy_for CollaborationMode.team CollaborationTopology.broadcast = some broadcast
strategy_for CollaborationMode.team CollaborationTopology.pipeline = some pipeline
strategy_for CollaborationMode.team CollaborationTopology.coordinator = some coordinator
strategy_for CollaborationMode.debate CollaborationTopology.broadcast = some debate
strategy_for CollaborationMode.vote CollaborationTopology.broadcast = some vote
strategy_for CollaborationMode.delegation CollaborationTopology.coordinator = some delegation
strategy_for _ _ = none

unfoldable pub select_strategy : CollaborationProtocol → Result Strategy
unfolding executed_protocol_violations strategy_for
select_strategy p = elim (executed_protocol_violations p) [
  | [] ↦ elim (strategy_for p.mode p.topology) [ none ↦ err unexecuted_protocol | some s ↦ ok s ]
  | v ∷ vs ↦ err unexecuted_protocol
]

unfoldable pub select_next_turn : Interaction → Result (Option Turn)
unfolding select_strategy next_turn
select_next_turn i = do s ← select_strategy i.protocol; next_turn s i
