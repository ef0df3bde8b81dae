-- ===== src/Control/TurnLease/Lowest.antt =====
-- The scan for the lowest index without a completed turn.
use hydra_mind.Prelude.{ℕ, List, [], ◌∷◌, ◌==◌, if◌then◌else◌}
use hydra_mind.Control.Interactions.{DurableTurn}

-- The turns but those of one index.
unfoldable without : ℕ → List DurableTurn → List DurableTurn
without m [] = []
without m (t ∷ ts) = let rest = without m ts in if t.turn_index == m then rest else t ∷ rest
