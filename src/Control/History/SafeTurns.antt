-- ===== src/Control/History/SafeTurns.antt =====
-- The methods on durable interactions, and the ledger's, keep what `Extension` says.
use hydra_mind.Prelude.{ℕ, zero, suc, ℤ, pos, negsuc, String, Bool, Option, List, [], ◌∷◌}
use hydra_mind.Prelude.Dict.{Payload}
use hydra_mind.Kernel.Contracts.{MessageRole, TurnStatus, InteractionStatus}
use hydra_mind.Mas.Votes.{VoteOutcome, CoordinatorOutcome}
use hydra_mind.Control.Models.{RuntimeSession}
use hydra_mind.Control.TurnLease.{RecoveredDurableTurn}
use hydra_mind.Control.Store.Rules.{
  IsSafe, IsSafeFrom, safe_rules, IsQuiet-pure, IsSafeFrom-put, IsSafe-get,
}
use hydra_mind.Control.History.Frames.{IsFramed, framed-Kept, IsFramed-trans, stamped-IsFramed}
use hydra_mind.Control.History.Changes.{with_key-Kept, repaired-Kept}
use hydra_mind.Control.History.Turns.{
  grant_turn-IsFramed, heartbeat_turn-IsFramed, release_turn-IsFramed, recover_turns-IsFramed,
  start-IsFramed, record_turn-IsFramed, record_message-IsFramed, record_outcome-IsFramed,
  resumed-IsFramed, complete-IsFramed,
}
use hydra_mind.Control.Service.Interactions.{
  start_interaction, record_interaction_turn, record_interaction_message,
  record_interaction_outcome, complete_interaction, mark_interaction_resumed, grant_turn_lease,
  heartbeat_turn_lease, release_turn_lease, recover_expired_turn_leases, put_recovered,
}
use hydra_mind.Control.Service.Ledger.{
  reserve_auto_repair_attempt, reserve_below, claim_idempotency_key, record_tool_effect_result,
}

ruleset turn_rules = (
  safe_rules, framed-Kept, grant_turn-IsFramed, heartbeat_turn-IsFramed, release_turn-IsFramed,
  start-IsFramed, record_turn-IsFramed, record_message-IsFramed, record_outcome-IsFramed,
  resumed-IsFramed, complete-IsFramed,
)

pub interaction-IsSafe :
    (id iid key execution_id team_id mode topology : String) (members : List String)
    (workspace : Option String) (now : ℕ)
    → IsSafe (start_interaction id iid key execution_id team_id mode topology members workspace now)
unfolding start_interaction
interaction-IsSafe id iid key execution_id team_id mode topology members workspace now =
    search turn_rules

pub turn-IsSafe :
    (id iid : String) (index : ℕ) (agent_id : String) (status : TurnStatus) (now : ℕ)
    → IsSafe (record_interaction_turn id iid index agent_id status now)
unfolding record_interaction_turn
turn-IsSafe id iid index agent_id status now = search turn_rules

pub message-IsSafe :
    (id iid : String) (index : ℕ) (sender content : String) (role : MessageRole)
    (in_reply_to : Option String) (now : ℕ)
    → IsSafe (record_interaction_message id iid index sender content role in_reply_to now)
unfolding record_interaction_message
message-IsSafe id iid index sender content role in_reply_to now = search turn_rules

pub outcome-IsSafe :
    (id iid : String) (vote : Option VoteOutcome) (decided : Option CoordinatorOutcome) (now : ℕ)
    → IsSafe (record_interaction_outcome id iid vote decided now)
unfolding record_interaction_outcome
outcome-IsSafe id iid vote decided now = search turn_rules

pub end_interaction-IsSafe :
    (id iid : String) (status : InteractionStatus) (error : Option String) (now : ℕ)
    → IsSafe (complete_interaction id iid status error now)
unfolding complete_interaction
end_interaction-IsSafe id iid status error now = search turn_rules

pub resume-IsSafe :
    (id iid : String) (index : ℤ) (now : ℕ) → IsSafe (mark_interaction_resumed id iid index now)
unfolding mark_interaction_resumed
resume-IsSafe id iid index now = search turn_rules

pub turn_grant-IsSafe :
    (id iid : String) (index : ℕ) (agent_id owner : String) (ttl : ℤ) (token : Option String)
    (fresh : String) (now : ℕ)
    → IsSafe (grant_turn_lease id iid index agent_id owner ttl token fresh now)
unfolding grant_turn_lease
turn_grant-IsSafe id iid index agent_id owner ttl token fresh now = search turn_rules

pub turn_heartbeat-IsSafe :
    (id iid : String) (index : ℕ) (token : String) (ttl : ℤ) (now : ℕ)
    → IsSafe (heartbeat_turn_lease id iid index token ttl now)
unfolding heartbeat_turn_lease
turn_heartbeat-IsSafe id iid index token ttl now = search turn_rules

pub turn_release-IsSafe :
    (id iid : String) (index : ℕ) (token : String) (completed : Bool) (now : ℕ)
    → IsSafe (release_turn_lease id iid index token completed now)
unfolding release_turn_lease
turn_release-IsSafe id iid index token completed now = search turn_rules

put_recovered-IsSafeFrom :
    (s t : RuntimeSession) (rs : List RecoveredDurableTurn) (now : ℕ)
    → IsFramed s t
    → IsSafeFrom s (put_recovered (t, rs) now)
put_recovered-IsSafeFrom s t [] now f = search safe_rules
put_recovered-IsSafeFrom s t (r ∷ rs) now f =
    IsSafeFrom-put s _ _ (framed-Kept (IsFramed-trans f (stamped-IsFramed t now)))
      (λ u. IsQuiet-pure _)

pub turn_recover-IsSafe : (id : String) (now : ℕ) → IsSafe (recover_expired_turn_leases id now)
unfolding recover_expired_turn_leases
turn_recover-IsSafe id now =
    IsSafe-get id _ (λ s. put_recovered-IsSafeFrom s _ _ now (recover_turns-IsFramed s now))

reserve_below-IsSafe : (id : String) (n now : ℕ) → IsSafe (reserve_below id n now)
unfolding reserve_below
reserve_below-IsSafe id n now = search (safe_rules, repaired-Kept)

pub reserve-IsSafe : (id : String) (n : ℤ) (now : ℕ) → IsSafe (reserve_auto_repair_attempt id n now)
unfolding reserve_auto_repair_attempt
reserve-IsSafe id (pos zero) now = search safe_rules
reserve-IsSafe id (pos (suc n)) now = reserve_below-IsSafe id (suc n) now
reserve-IsSafe id (negsuc n) now = search safe_rules

pub claim-IsSafe :
    (id key kind : String) (detail : Payload) (now : ℕ)
    → IsSafe (claim_idempotency_key id key kind detail now)
unfolding claim_idempotency_key
claim-IsSafe id key kind detail now = search (safe_rules, with_key-Kept) depth 12

pub tool_effect-IsSafe :
    (id fingerprint tool_call_id content : String) (now : ℕ)
    → IsSafe (record_tool_effect_result id fingerprint tool_call_id content now)
unfolding record_tool_effect_result
tool_effect-IsSafe id fingerprint tool_call_id content now =
    search (safe_rules, with_key-Kept) depth 12
