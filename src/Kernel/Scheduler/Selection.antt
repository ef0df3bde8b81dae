-- ===== src/Kernel/Scheduler/Selection.antt =====
-- Which protocols the scheduler takes.
use hydra_mind.Prelude.{◌≡◌, true, false, none, some, [], ok, err, arith, unexecuted_protocol, ◌⊎◌}
use hydra_mind.Mas.Contracts.{CollaborationProtocol, TeamSpec}
use hydra_mind.Mas.Capability.{executed_pair, executed_protocol_violations, require_executed_team}
use hydra_mind.Kernel.Scheduler.{Strategy, strategy_for, select_strategy}

violations-executed :
    (p : CollaborationProtocol)
    → executed_pair p.mode p.topology ≡ true
    → executed_protocol_violations p ≡ []
unfolding executed_protocol_violations
violations-executed p h = ground arith

-- Selection takes a protocol exactly if its pair of mode and topology is one that the runtime
-- executes, and then it gives the strategy that the table has for the pair; every other protocol is
-- refused with the same exception. The check of a team before a run gives the same verdict on its
-- protocol.
pub selection_matches_capability :
    (t : TeamSpec)
    → ((executed_pair t.protocol.mode t.protocol.topology ≡ true)
        × (s : Strategy) × (strategy_for t.protocol.mode t.protocol.topology ≡ some s)
        × (select_strategy t.protocol ≡ ok s)
        × (require_executed_team t ≡ ok tt))
      ⊎ ((executed_pair t.protocol.mode t.protocol.topology ≡ false)
          × (strategy_for t.protocol.mode t.protocol.topology ≡ none)
          × (select_strategy t.protocol ≡ err unexecuted_protocol)
          × (require_executed_team t ≡ err unexecuted_protocol))
unfolding select_strategy strategy_for executed_protocol_violations executed_pair
    require_executed_team
selection_matches_capability t = ground arith
