-- ===== src/Control/History/Permanent.antt =====
-- What no history of calls of the session service and of the control plane undoes.
use hydra_mind.Prelude.{String, ◌≡◌, refl, true, false, some, List, [], ◌∷◌, arith}
use hydra_mind.Prelude.Dict
use hydra_mind.Prelude.Dict.{get-empty}
use hydra_mind.Control.States.{SessionStatus, is_valid_session_transition, is_terminal}
use hydra_mind.Control.Models.{RuntimeSession}
use hydra_mind.Control.Store.{SessionStore}
use hydra_mind.Control.Store.Extension.{
  Extends, StatusPath, stay, move, WellFormed, Later, Later-refl, Later-trans,
}
use hydra_mind.Control.History.Calls.{Call, perform, run}
use hydra_mind.Control.History.Safe.{
  create-IsSafe, transition-IsSafe, complete-IsSafe, fail-IsSafe, metadata-IsSafe, add_nodes-IsSafe,
  revision-IsSafe,
}
use hydra_mind.Control.History.SafeNodes.{
  node_transition-IsSafe, complete_node-IsSafe, fail_node-IsSafe, requeue-IsSafe, gate-IsSafe,
  decide-IsSafe, attempt-IsSafe, recover-IsSafe, grant-IsSafe, heartbeat-IsSafe, release-IsSafe,
  consume-IsSafe,
}
use hydra_mind.Control.History.SafeRecords.{tool_started-IsSafe, tool_ended-IsSafe, event-IsSafe}
use hydra_mind.Control.History.SafeApply.{intent-IsSafe, decision-IsSafe, open_decision-IsSafe}
use hydra_mind.Control.History.SafeTurns.{
  interaction-IsSafe, turn-IsSafe, message-IsSafe, outcome-IsSafe, end_interaction-IsSafe,
  resume-IsSafe, turn_grant-IsSafe, turn_heartbeat-IsSafe, turn_release-IsSafe, turn_recover-IsSafe,
  reserve-IsSafe, claim-IsSafe, tool_effect-IsSafe,
}

perform-Later : (c : Call) (st : SessionStore) → WellFormed st → Later st (perform c st)
unfolding perform
perform-Later (Call.create b input metadata id now) = (create-IsSafe b input metadata id now).at
perform-Later (Call.transition id to now) = (transition-IsSafe id to now).at
perform-Later (Call.complete id summary now) = (complete-IsSafe id summary now).at
perform-Later (Call.fail id error now) = (fail-IsSafe id error now).at
perform-Later (Call.update_metadata id metadata do_merge now) =
    (metadata-IsSafe id metadata do_merge now).at
perform-Later (Call.add_nodes id nodes now) = (add_nodes-IsSafe id nodes now).at
perform-Later (Call.revise id revision now applied_at) =
    (revision-IsSafe id revision now applied_at).at
perform-Later (Call.node_transition id key to now) = (node_transition-IsSafe id key to now).at
perform-Later (Call.node_complete id key output now) = (complete_node-IsSafe id key output now).at
perform-Later (Call.node_fail id key error now) = (fail_node-IsSafe id key error now).at
perform-Later (Call.node_requeue id key reason now) = (requeue-IsSafe id key reason now).at
perform-Later (Call.gate id key gate_id name result detail now) =
    (gate-IsSafe id key gate_id name result detail now).at
perform-Later (Call.decide id input decision_id now) = (decide-IsSafe id input decision_id now).at
perform-Later (Call.attempt id key trace_id attempt_id now) =
    (attempt-IsSafe id key trace_id attempt_id now).at
perform-Later (Call.recover id now) = (recover-IsSafe id now).at
perform-Later (Call.grant id key execution_id owner ttl token fresh now) =
    (grant-IsSafe id key execution_id owner ttl token fresh now).at
perform-Later (Call.heartbeat id execution_id token ttl now) =
    (heartbeat-IsSafe id execution_id token ttl now).at
perform-Later (Call.release id execution_id token now) =
    (release-IsSafe id execution_id token now).at
perform-Later
      (Call.interaction id iid key execution_id team_id mode topology members workspace now) =
    (interaction-IsSafe id iid key execution_id team_id mode topology members workspace now).at
perform-Later (Call.turn id iid index agent_id status now) =
    (turn-IsSafe id iid index agent_id status now).at
perform-Later (Call.message id iid index sender content role in_reply_to now) =
    (message-IsSafe id iid index sender content role in_reply_to now).at
perform-Later (Call.outcome id iid vote decided now) = (outcome-IsSafe id iid vote decided now).at
perform-Later (Call.end_interaction id iid status error now) =
    (end_interaction-IsSafe id iid status error now).at
perform-Later (Call.resume id iid index now) = (resume-IsSafe id iid index now).at
perform-Later (Call.turn_grant id iid index agent_id owner ttl token fresh now) =
    (turn_grant-IsSafe id iid index agent_id owner ttl token fresh now).at
perform-Later (Call.turn_heartbeat id iid index token ttl now) =
    (turn_heartbeat-IsSafe id iid index token ttl now).at
perform-Later (Call.turn_release id iid index token completed now) =
    (turn_release-IsSafe id iid index token completed now).at
perform-Later (Call.turn_recover id now) = (turn_recover-IsSafe id now).at
perform-Later (Call.reserve id max_attempts now) = (reserve-IsSafe id max_attempts now).at
perform-Later (Call.claim id key kind detail now) = (claim-IsSafe id key kind detail now).at
perform-Later (Call.tool_effect id fingerprint tool_call_id content now) =
    (tool_effect-IsSafe id fingerprint tool_call_id content now).at
perform-Later (Call.tool_started redact id execution_id c fresh now) =
    (tool_started-IsSafe redact id execution_id c fresh now).at
perform-Later (Call.tool_ended id execution_id tool_call_id e now) =
    (tool_ended-IsSafe id execution_id tool_call_id e now).at
perform-Later (Call.event dump id r now) = (event-IsSafe dump id r now).at
perform-Later (Call.consume id r fresh now) = (consume-IsSafe id r fresh now).at
perform-Later (Call.apply id i r gate_id clock) = (intent-IsSafe id i r gate_id clock).at
perform-Later (Call.decide_gate id input decision_id gate_id clock) =
    (decision-IsSafe id input decision_id gate_id clock).at
perform-Later (Call.report g d id r ids clock) = (open_decision-IsSafe g d id r ids clock).at

pub run-Later : (cs : List Call) (st : SessionStore) → WellFormed st → Later st (run cs st)
unfolding run
run-Later [] st w = Later-refl w
run-Later (c ∷ cs) st w =
    let l = perform-Later c st w in Later-trans l (run-Later cs (perform c st) l.formed)

empty-WellFormed : WellFormed []
empty-WellFormed = record {
  ids = λ k s h. cc (h, get-empty {V = RuntimeSession} k);
  raised = λ k s h. cc (h, get-empty {V = RuntimeSession} k);
}

pub reachable-WellFormed : (cs : List Call) → WellFormed (run cs [])
reachable-WellFormed cs = (run-Later cs [] empty-WellFormed).formed

terminal_has_no_exit :
    (a b : SessionStatus) → is_terminal a ≡ true → is_valid_session_transition a b ≡ false
unfolding is_valid_session_transition
terminal_has_no_exit a b h = ground arith

terminal_stays : {a b : SessionStatus} → StatusPath a b → is_terminal a ≡ true → b ≡ a
terminal_stays stay h = refl
terminal_stays {a} {b} (move p valid) h = cc (terminal_has_no_exit a b h, terminal_stays p h, valid)

-- Take any two histories of calls of the session service and of the control plane, the first from an empty store, and a
-- session that is stored after the first. After the second it is still stored under the same key,
-- with the same id. Its version has not gone down, its status has moved along the transition table
-- only, each record of its idempotency ledger is there unchanged, and its count of repairs has not
-- gone down.
pub history-Extends :
    (before after : List Call) (key : String) (s : RuntimeSession)
    → Dict.get (run before []) key ≡ some s
    → (t : RuntimeSession) × (Dict.get (run after (run before [])) key ≡ some t) × Extends s t
history-Extends before after key s =
    (run-Later after (run before []) (reachable-WellFormed before)).sessions key s

-- A session that is completed, failed or cancelled after a history of calls from an empty store has
-- the same status after every further history of calls.
pub terminal_is_final :
    (before after : List Call) (key : String) (s : RuntimeSession)
    → Dict.get (run before []) key ≡ some s
    → is_terminal s.status ≡ true
    → (t : RuntimeSession) × (Dict.get (run after (run before [])) key ≡ some t)
      × (t.status ≡ s.status)
terminal_is_final before after key s held ended =
    let (t, at_t, e) = history-Extends before after key s held in
    (t, at_t, terminal_stays e.kept.statuses ended)

-- A store that a history of calls has reached holds each session under its own id.
pub stored_under_id :
    (calls : List Call) (key : String) (s : RuntimeSession)
    → Dict.get (run calls []) key ≡ some s
    → s.id ≡ key
stored_under_id calls key s = (reachable-WellFormed calls).ids key s
