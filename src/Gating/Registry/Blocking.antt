-- ===== src/Gating/Registry/Blocking.antt =====
-- Where a blocking gate comes from.
use hydra_mind.Prelude.{
  ◌≡◌, refl, Bool, true, false, Option, none, some, List, [], ◌∷◌, Result, ok, err, arith,
  if◌then◌else◌, inl, inr, ◌⊎◌, ℕ, suc, get_elem?,
}
use hydra_mind.Control.States.{GateOutcome}
use hydra_mind.Control.Models.{Gate, NodeState, RuntimeSession}
use hydra_mind.Control.Intents.{AgentReport}
use hydra_mind.Gating.Registry.{
  GateSeverity, GateEvaluator, applies, is_blocking, remember, on_gate, evaluate_all, to_gate_fn,
}
use hydra_mind.Gating.Registry.Halting.{is_block}

-- A gate that blocks comes from an evaluator that applies and whose severity is blocking.
abbrev pub IsBlocker : GateEvaluator → RuntimeSession → NodeState → AgentReport → Gate → Type 0
IsBlocker e s n r g =
    (applies e.contract n.key r.boundary_event ≡ true)
    × (is_blocking e.contract.severity ≡ true)
    × (e.evaluate s n r ≡ ok (some g))

abbrev IsNoBlock : Option Gate → Type 0
IsNoBlock none = Unit
IsNoBlock (some f) = is_block f.outcome ≡ false

remember-IsNoBlock :
    (p : Option Gate) (g : Gate)
    → IsNoBlock p
    → is_block g.outcome ≡ false
    → IsNoBlock (remember p g)
remember-IsNoBlock none g h k = k
remember-IsNoBlock (some f) g h k = h

module _ (p : Option Gate) (rest : Option Gate → Result (Option Gate)) (kept : IsNoBlock p) where
  -- A round that ends in a block: one of its own evaluator, or one of a later round.
  abbrev Blocks : GateSeverity → Result (Option Gate) → Gate → Type 0
  Blocks severity given g =
      ((is_blocking severity ≡ true) × (given ≡ ok (some g)))
      ⊎ ((p' : Option Gate) × (IsNoBlock p' × (rest p' ≡ ok (some g))))

  gate-Blocks :
      (severity : GateSeverity) (f : Gate) (o : GateOutcome) (g : Gate)
      → on_gate severity p (ok (some (record f { outcome = o }))) rest ≡ ok (some g)
      → is_block g.outcome ≡ true
      → Blocks severity (ok (some (record f { outcome = o }))) g
  gate-Blocks GateSeverity.blocking f GateOutcome.block g h b = inl (refl, h)
  gate-Blocks GateSeverity.advisory f GateOutcome.block g h b = cc h
  gate-Blocks severity f GateOutcome.requires_decision g h b = absurd (ground arith)
  gate-Blocks severity f GateOutcome.pass g h b = inr (
    remember p (record f { outcome = GateOutcome.pass }),
    (remember-IsNoBlock p (record f { outcome = GateOutcome.pass }) kept refl, h),
  )

  on_gate-Blocks :
      (severity : GateSeverity) (given : Result (Option Gate)) (g : Gate)
      → on_gate severity p given rest ≡ ok (some g)
      → is_block g.outcome ≡ true
      → Blocks severity given g
  on_gate-Blocks severity (err e) g h b = cc h
  on_gate-Blocks severity (ok none) g h b = inr (p, (kept, h))
  on_gate-Blocks severity (ok (some f)) g h b = gate-Blocks severity f f.outcome g h b

evaluate_all-IsBlocker :
    (es : List GateEvaluator) (s : RuntimeSession) (n : NodeState) (r : AgentReport)
    (p : Option Gate) (g : Gate)
    → IsNoBlock p
    → evaluate_all es s n r p ≡ ok (some g)
    → is_block g.outcome ≡ true
    → (i : ℕ) × (e : GateEvaluator) × (get_elem? es i ≡ some e) × IsBlocker e s n r g
unfolding evaluate_all
evaluate_all-IsBlocker [] s n r none g k h b = cc h
evaluate_all-IsBlocker [] s n r (some f) g k h b = absurd (ground arith)
evaluate_all-IsBlocker (e ∷ es) s n r p g k h b =
    by_fit (applies e.contract n.key r.boundary_event) refl h (λ p' k' h'.
      let (i, x, at_i, is) = evaluate_all-IsBlocker es s n r p' g k' h' b in (suc i, x, at_i, is))
  where
    by_fit :
        (fits : Bool)
        → applies e.contract n.key r.boundary_event ≡ fits
        → (if fits
            then on_gate e.contract.severity p (e.evaluate s n r) (evaluate_all es s n r)
            else evaluate_all es s n r p)
          ≡ ok (some g)
        → ((p' : Option Gate)
            → IsNoBlock p'
            → evaluate_all es s n r p' ≡ ok (some g)
            → (i : ℕ) × (x : GateEvaluator) × (get_elem? (e ∷ es) i ≡ some x) × IsBlocker x s n r g)
        → (i : ℕ) × (x : GateEvaluator) × (get_elem? (e ∷ es) i ≡ some x) × IsBlocker x s n r g
    by_fit true fits h later =
        elim (on_gate-Blocks p (evaluate_all es s n r) k e.contract.severity (e.evaluate s n r) g h
          b) [
            | inl own ↦ (0, e, refl, (fits, own.0, own.1))
            | inr next ↦ later next.0 next.1.0 next.1.1
          ]
    by_fit false fits h later = later p k h

-- When the gate function of a registry gives a gate that blocks, an evaluator of the registry gave it
-- that applies to the node and the event, and whose severity is blocking.
pub block_needs_blocking :
    (es : List GateEvaluator) (s : RuntimeSession) (n : NodeState) (r : AgentReport) (g : Gate)
    → to_gate_fn es s n r ≡ ok (some g)
    → is_block g.outcome ≡ true
    → (i : ℕ) × (e : GateEvaluator) × (get_elem? es i ≡ some e) × IsBlocker e s n r g
unfolding to_gate_fn
block_needs_blocking es s n r g h b = evaluate_all-IsBlocker es s n r none g tt h b
