-- ===== src/Mas/Capability.antt =====
-- src/hydramind/mas/capability.py: what of the declared protocols the runtime executes. A violation
-- is the text that the source builds; here it is a value that names the declaration at fault.
use hydra_mind.Prelude.{
  Bool, true, false, not, ◌&&◌, List, [], ◌∷◌, ◌++◌, Result, ok, err, unexecuted_protocol,
}
use hydra_mind.Mas.Contracts.{
  CollaborationMode, CollaborationTopology, AggregationStrategy, ArbitrationStrategy,
  CollaborationProtocol, TeamSpec,
}

pub data Violation : Type 0 where
  mode_not_executed topology_not_executed pair_not_executed : Violation
  aggregation_not_executed arbitration_not_executed : Violation

-- mode in EXECUTED_MODES
abbrev pub executed_mode : CollaborationMode → Bool
executed_mode CollaborationMode.team = true
executed_mode CollaborationMode.delegation = true
executed_mode CollaborationMode.debate = true
executed_mode CollaborationMode.vote = true

abbrev pub executed_topology : CollaborationTopology → Bool
executed_topology CollaborationTopology.broadcast = true
executed_topology CollaborationTopology.pipeline = true
executed_topology CollaborationTopology.coordinator = true

abbrev pub executed_aggregation : AggregationStrategy → Bool
executed_aggregation AggregationStrategy.collect = true
executed_aggregation AggregationStrategy.coordinator_summary = true
executed_aggregation AggregationStrategy.vote = true

abbrev pub executed_arbitration : ArbitrationStrategy → Bool
executed_arbitration ArbitrationStrategy.coordinator = true
executed_arbitration ArbitrationStrategy.majority = true
executed_arbitration ArbitrationStrategy.no_arbitration = true

-- (mode, topology) in EXECUTED_MODE_TOPOLOGY_PAIRS
unfoldable pub executed_pair : CollaborationMode → CollaborationTopology → Bool
executed_pair CollaborationMode.team CollaborationTopology.broadcast = true
executed_pair CollaborationMode.team CollaborationTopology.pipeline = true
executed_pair CollaborationMode.team CollaborationTopology.coordinator = true
executed_pair CollaborationMode.debate CollaborationTopology.broadcast = true
executed_pair CollaborationMode.vote CollaborationTopology.broadcast = true
executed_pair CollaborationMode.delegation CollaborationTopology.coordinator = true
executed_pair _ _ = false

-- if test: violations.append(v)
abbrev report : Bool → Violation → List Violation
report true v = v ∷ []
report false v = []

unfoldable pub executed_protocol_violations : CollaborationProtocol → List Violation
unfolding executed_pair
executed_protocol_violations p =
    report (not (executed_mode p.mode)) mode_not_executed
    ++ (report (not (executed_topology p.topology)) topology_not_executed
        ++ (report
              (executed_mode p.mode
                && executed_topology p.topology
                && not (executed_pair p.mode p.topology))
              pair_not_executed
            ++ (report (not (executed_aggregation p.aggregation)) aggregation_not_executed
                ++ report (not (executed_arbitration p.arbitration)) arbitration_not_executed)))

unfoldable pub require_executed_team : TeamSpec → Result (Unit {0})
unfolding executed_protocol_violations
require_executed_team t = elim (executed_protocol_violations t.protocol) [
  | [] ↦ ok tt
  | v ∷ vs ↦ err unexecuted_protocol
]
