-- ===== src/Control/TurnLease.antt =====
-- control/interaction_turn_lease.py: leases on the turns of a durable interaction, and recovery.
pub mod Lowest
pub mod Turns
pub mod Exclusive
use Prim.Native.String.{◌++◌ as str_append}
use hydra_mind.Prelude.{
  pos, ℕ, zero, suc, ◌+◌, ℤ, String, Bool, true, false, not, ◌&&◌, ◌||◌, Option, none, some, List,
  [], ◌∷◌, ◌++◌, map, Result, ok, err, turn_lease, ◌>>=◌, ◌>>◌, guard, raise_if, or_raise, is_some,
  truthy, strip, str_eq, ◌==◌, if◌then◌else◌, length, any,
}
use hydra_mind.Prelude.Dict
use hydra_mind.Prelude.Dict.{Dict}
use hydra_mind.Prelude.Text.{decimal}
use hydra_mind.Kernel.Contracts.{TurnStatus}
use hydra_mind.Control.Interactions.{DurableTurn, DurableInteraction, turn_by_index}
use hydra_mind.Control.Models.{RuntimeSession}
use hydra_mind.Control.Execution.{positive_ttl, expires_after, or_fresh, token_is}

abbrev pub turn_lease_ttl : ℤ → Result ℕ
turn_lease_ttl = positive_ttl turn_lease

unfoldable pub is_turn_lease_live : DurableTurn → ℕ → Bool
is_turn_lease_live t as_of =
    truthy t.turn_lease_token
    && truthy t.turn_lease_owner
    && expires_after t.turn_lease_expires_at as_of

unfoldable pub has_turn_lease_metadata : DurableTurn → Bool
has_turn_lease_metadata t =
    truthy t.turn_lease_token || truthy t.turn_lease_owner || is_some t.turn_lease_expires_at

abbrev pub is_completed : TurnStatus → Bool
is_completed TurnStatus.completed = true
is_completed _ = false

-- `_require`
abbrev pub required_interaction : RuntimeSession → String → Result DurableInteraction
required_interaction s interaction_id =
    or_raise (Dict.get s.durable_interactions interaction_id) turn_lease

unfoldable pub replace_turns : List DurableTurn → DurableTurn → List DurableTurn
replace_turns [] t = []
replace_turns (x ∷ xs) t = (if x.turn_index == t.turn_index then t else x) ∷ replace_turns xs t

-- `_replace_turn`
unfoldable pub replace_turn : DurableInteraction → DurableTurn → ℕ → DurableInteraction
unfolding replace_turns
replace_turn i t now = record i {
  turns = replace_turns i.turns t;
  version = i.version + 1;
  updated_at = now;
}

-- f"turn-{interaction_id}-{turn_index}"
unfoldable pub turn_id : String → ℕ → String
unfolding decimal
turn_id interaction_id index =
    str_append "turn-" (str_append interaction_id (str_append "-" (decimal index)))

unfoldable pub new_turn : String → ℕ → String → TurnStatus → ℕ → Option ℕ → DurableTurn
new_turn interaction_id index agent_id status now completed_at = record {
  id = turn_id interaction_id index;
  interaction_id = interaction_id;
  turn_index = index;
  agent_id = agent_id;
  status = status;
  created_at = now;
  completed_at = completed_at;
  turn_lease_token = none;
  turn_lease_owner = none;
  turn_lease_expires_at = none;
  last_heartbeat_at = none;
}

-- `_ensure_turn`
unfoldable pub ensure_turn : DurableInteraction → ℕ → String → ℕ → DurableInteraction × DurableTurn
unfolding turn_by_index new_turn
ensure_turn i index agent_id now = elim (turn_by_index i index) [
  | some t ↦ (i, t)
  | none ↦
      let t = new_turn i.id index agent_id TurnStatus.pending now none in
      (record i { turns = i.turns ++ t ∷ []; version = i.version + 1; updated_at = now }, t)
]

-- session.durable_interactions[id] = updated; session.updated_at = now
abbrev pub with_interaction : RuntimeSession → String → DurableInteraction → ℕ → RuntimeSession
with_interaction s interaction_id i now = record s {
  durable_interactions = Dict.put s.durable_interactions interaction_id i;
  updated_at = now;
}

unfoldable pub leased_turn :
    DurableTurn → String → ℤ → Option String → String → ℕ → Result DurableTurn
unfolding is_turn_lease_live positive_ttl
leased_turn t owner ttl_seconds lease_token fresh now = do
  raise_if (is_completed t.status) turn_lease
  raise_if (str_eq (strip owner) "") turn_lease
  raise_if (is_turn_lease_live t now) turn_lease
  raise_if (str_eq (strip (or_fresh lease_token fresh)) "") turn_lease
  ttl ← turn_lease_ttl ttl_seconds
  ok (record t {
    turn_lease_token = some (or_fresh lease_token fresh);
    turn_lease_owner = some (strip owner);
    last_heartbeat_at = some now;
    turn_lease_expires_at = some (now + ttl);
  })

unfoldable pub grant_durable_turn_lease :
    RuntimeSession
    → String
    → ℕ
    → String
    → String
    → ℤ
    → Option String
    → String
    → ℕ
    → Result (RuntimeSession × DurableInteraction)
grant_durable_turn_lease s interaction_id index agent_id owner ttl_seconds lease_token fresh now =
    do
      i ← required_interaction s interaction_id
      let ensured = ensure_turn i index agent_id now
      t ← leased_turn ensured.1 owner ttl_seconds lease_token fresh now
      let updated = replace_turn ensured.0 t now
      ok (with_interaction s interaction_id updated now, updated)

unfoldable pub assert_durable_turn_lease : DurableTurn → String → ℕ → Bool → Result (Unit {0})
unfolding is_turn_lease_live
assert_durable_turn_lease t lease_token as_of allow_expired = do
  raise_if (str_eq (strip lease_token) "") turn_lease
  guard (truthy t.turn_lease_token && truthy t.turn_lease_owner) turn_lease
  guard (token_is t.turn_lease_token (strip lease_token)) turn_lease
  raise_if (is_completed t.status) turn_lease
  guard (allow_expired || is_turn_lease_live t as_of) turn_lease

unfoldable pub heartbeat_durable_turn_lease :
    RuntimeSession → String → ℕ → String → ℤ → ℕ → Result (RuntimeSession × DurableInteraction)
heartbeat_durable_turn_lease s interaction_id index lease_token ttl_seconds now = do
  i ← required_interaction s interaction_id
  t ← or_raise (turn_by_index i index) turn_lease
  assert_durable_turn_lease t lease_token now false
  ttl ← turn_lease_ttl ttl_seconds
  let refreshed = record t {
    last_heartbeat_at = some now;
    turn_lease_expires_at = some (now + ttl);
  }
  let updated = replace_turn i refreshed now
  ok (with_interaction s interaction_id updated now, updated)

unfoldable pub clear_turn_lease : DurableTurn → DurableTurn
clear_turn_lease t = record t {
  turn_lease_token = none;
  turn_lease_owner = none;
  last_heartbeat_at = none;
  turn_lease_expires_at = none;
}

abbrev completed_if : Bool → ℕ → DurableTurn → DurableTurn
completed_if true now t = record t { status = TurnStatus.completed; completed_at = some now }
completed_if false now t = t

unfoldable pub release_durable_turn_lease :
    RuntimeSession → String → ℕ → String → Bool → ℕ → Result (RuntimeSession × DurableInteraction)
release_durable_turn_lease s interaction_id index lease_token completed now = do
  i ← required_interaction s interaction_id
  t ← or_raise (turn_by_index i index) turn_lease
  assert_durable_turn_lease t lease_token now true
  let updated = replace_turn i (completed_if completed now (clear_turn_lease t)) now
  ok (with_interaction s interaction_id updated now, updated)

pub record RecoveredDurableTurn : Type 0 where
  pub interaction_id : String
  pub node_key : String
  pub turn_index : ℕ
  pub lease_owner : Option String
  pub lease_expires_at : Option ℕ
  pub recovered_from_turn_index : ℕ

-- index in {turn.turn_index for turn in turns if turn.status is COMPLETED}
unfoldable pub completed_at_index : List DurableTurn → ℕ → Bool
completed_at_index turns index = any (λ t. is_completed t.status && t.turn_index == index) turns

-- `while index in completed: index += 1`, on fuel
unfoldable pub lowest_from : ℕ → List DurableTurn → ℕ → ℕ
unfolding completed_at_index
lowest_from zero turns index = index
lowest_from (suc fuel) turns index =
    let next = lowest_from fuel turns (suc index) in
    if completed_at_index turns index then next else index

-- `_lowest_incomplete_turn_index`
unfoldable pub lowest_incomplete_turn_index : DurableInteraction → ℕ
unfolding lowest_from
lowest_incomplete_turn_index i = lowest_from (suc (length i.turns)) i.turns 0

-- The three `continue`s of the loop over the turns.
abbrev pub is_recoverable : DurableTurn → ℕ → Bool
is_recoverable t now =
    not (is_completed t.status) && (has_turn_lease_metadata t && not (is_turn_lease_live t now))

-- What the loop writes for one recoverable turn.
unfoldable pub revert_turn : DurableInteraction → DurableTurn → ℕ → DurableInteraction
unfolding replace_turn clear_turn_lease lowest_incomplete_turn_index
revert_turn current t now =
    let next =
      replace_turn current (record (clear_turn_lease t) { status = TurnStatus.pending }) now in
    record next { recovered_from_turn_index = some (pos (lowest_incomplete_turn_index next)) }

abbrev recovered_turn : String → DurableInteraction → DurableTurn → RecoveredDurableTurn
recovered_turn interaction_id current t = record {
  interaction_id = interaction_id;
  node_key = current.node_key;
  turn_index = t.turn_index;
  lease_owner = t.turn_lease_owner;
  lease_expires_at = t.turn_lease_expires_at;
  recovered_from_turn_index = lowest_incomplete_turn_index current;
}

-- The loop over the turns that the interaction had at its start.
unfoldable pub recover_turns :
    String
    → List DurableTurn
    → DurableInteraction
    → ℕ
    → DurableInteraction × List RecoveredDurableTurn
unfolding revert_turn is_turn_lease_live has_turn_lease_metadata
recover_turns interaction_id [] current now = (current, [])
recover_turns interaction_id (t ∷ ts) current now =
    let reverted = revert_turn current t now in
    let skipped = recover_turns interaction_id ts current now in
    let done = recover_turns interaction_id ts reverted now in
    if is_recoverable t now
    then (done.0, recovered_turn interaction_id reverted t ∷ done.1)
    else skipped

unfoldable pub recover_interactions :
    Dict DurableInteraction → ℕ → Dict DurableInteraction × List RecoveredDurableTurn
unfolding recover_turns
recover_interactions [] now = ([], [])
recover_interactions ((k, i) ∷ d) now =
    let first = recover_turns k i.turns i now in
    let rest = recover_interactions d now in ((k, first.0) ∷ rest.0, first.1 ++ rest.1)

abbrev stamped :
    RuntimeSession
    → Dict DurableInteraction × List RecoveredDurableTurn
    → ℕ
    → RuntimeSession × List RecoveredDurableTurn
stamped s (d, []) now = (s, [])
stamped s (d, r ∷ rs) now = (record s { durable_interactions = d; updated_at = now }, r ∷ rs)

unfoldable pub recover_expired_durable_turn_leases :
    RuntimeSession → ℕ → RuntimeSession × List RecoveredDurableTurn
unfolding recover_interactions
recover_expired_durable_turn_leases s now =
    stamped s (recover_interactions s.durable_interactions now) now
