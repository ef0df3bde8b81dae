-- ===== src/Control/TurnLease/Exclusive.antt =====
-- Leases on turns: one owner at a time.
use hydra_mind.Prelude.{
  ℕ, suc, ◌+◌, ◌<◌, ℤ, pos, String, ◌≡◌, refl, ◌∙◌, true, Option, none, some, ok, err, arith,
  turn_lease, eq_refl, >>=-eq-ok, ok-injective, subst,
}
use hydra_mind.Prelude.Dict
use hydra_mind.Prelude.Dict.{get-put}
use hydra_mind.Prelude.Text.{not_blank}
use hydra_mind.Kernel.Contracts.{TurnStatus}
use hydra_mind.Control.Execution.{or_fresh, seconds}
use hydra_mind.Control.Interactions.{DurableTurn, DurableInteraction, turn_by_index}
use hydra_mind.Control.Models.{RuntimeSession}
use hydra_mind.Control.TurnLease.{
  grant_durable_turn_lease, leased_turn, ensure_turn, replace_turn, is_turn_lease_live,
  required_interaction, new_turn,
}
use hydra_mind.Control.TurnLease.Turns.{turn_at, turn_at-replace, turn_at-index, turn_at-append}

leased-live :
    (t u : DurableTurn) (owner : String) (n : ℕ) (token : Option String) (fresh : String)
    (now later : ℕ)
    → leased_turn t owner (pos (suc n)) token fresh now ≡ ok u
    → later < now + seconds (suc n)
    → (is_turn_lease_live u later ≡ true) × (u.turn_index ≡ t.turn_index)
unfolding leased_turn is_turn_lease_live
leased-live t u owner n token fresh now later h soon =
    ground (arith, not_blank (or_fresh token fresh))

live_refused :
    (t : DurableTurn) (owner : String) (ttl : ℤ) (token : Option String) (fresh : String) (now : ℕ)
    → is_turn_lease_live t now ≡ true
    → leased_turn t owner ttl token fresh now ≡ err turn_lease
unfolding leased_turn
live_refused t owner ttl token fresh now live = ground arith

-- The turn that `ensure_turn` gives is the one at the index.
ensure-turn_at :
    (i : DurableInteraction) (index : ℕ) (agent_id : String) (now : ℕ)
    → turn_at (ensure_turn i index agent_id now).0.turns index
      ≡ some (ensure_turn i index agent_id now).1
unfolding ensure_turn
ensure-turn_at i index agent_id now =
    ground (
      arith,
      turn_at-append i.turns (new_turn i.id index agent_id TurnStatus.pending now none) index,
    )

ensure_old :
    (i : DurableInteraction) (t : DurableTurn) (index : ℕ) (agent_id : String) (now : ℕ)
    → turn_at i.turns index ≡ some t
    → ensure_turn i index agent_id now ≡ (i, t)
unfolding ensure_turn turn_by_index
ensure_old i t index agent_id now found = rw (found, ensure_turn) refl

-- A grant of a turn's lease that succeeds, with `n + 1` seconds to live.
module _ (s : RuntimeSession) (id : String) (index : ℕ) (agent_id owner : String) (n : ℕ)
    (token : Option String) (fresh : String) (now : ℕ) {r : RuntimeSession × DurableInteraction}
    (granted : grant_durable_turn_lease s id index agent_id owner (pos (suc n)) token fresh now
      ≡ ok r) where
  grant-turn_at :
      (later : ℕ)
      → later < now + seconds (suc n)
      → (u : DurableTurn) × (Dict.get r.0.durable_interactions id ≡ some r.1)
        × (turn_at r.1.turns index ≡ some u)
        × (is_turn_lease_live u later ≡ true)
  unfolding grant_durable_turn_lease replace_turn
  grant-turn_at later soon =
      let (i, found, rest) = >>=-eq-ok (required_interaction s id) _ granted in
      let (u, wrote, same) =
        >>=-eq-ok
          (leased_turn (ensure_turn i index agent_id now).1 owner (pos (suc n)) token fresh now) _
          rest in
      let ensured = ensure_turn i index agent_id now in
      let (live, kept_index) = leased-live ensured.1 u owner n token fresh now later wrote soon in
      let here = ensure-turn_at i index agent_id now in
      let u_index : u.turn_index ≡ index =
        kept_index ∙ turn_at-index ensured.0.turns ensured.1 index here in
      subst
        (λ (p : RuntimeSession × DurableInteraction).
          (v : DurableTurn) × (Dict.get p.0.durable_interactions id ≡ some p.1)
          × (turn_at p.1.turns index ≡ some v)
          × (is_turn_lease_live v later ≡ true))
        (ok-injective same)
        (
          u,
          rw (get-put s.durable_interactions id id (replace_turn ensured.0 u now), eq_refl id) refl,
          turn_at-replace ensured.0.turns u ensured.1 index here u_index,
          live,
        )

  -- After a grant with `n + 1` seconds to live, and while they have not passed, every other grant
  -- on the same turn is refused.
  pub turn_grant_excludes :
      (agent' owner' : String) (ttl' : ℤ) (token' : Option String) (fresh' : String) (later : ℕ)
      → later < now + seconds (suc n)
      → grant_durable_turn_lease r.0 id index agent' owner' ttl' token' fresh' later
        ≡ err turn_lease
  unfolding grant_durable_turn_lease
  turn_grant_excludes agent' owner' ttl' token' fresh' later soon =
      let (u, held, at_index, live) = grant-turn_at later soon in
      rw (held) (
        rw
          (
            ensure_old r.1 u index agent' later at_index,
            live_refused u owner' ttl' token' fresh' later live,
          )
          refl)
