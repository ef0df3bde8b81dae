-- ===== src/Control/Reports/Refused.antt =====
-- Reports that the control plane refuses without a change.
use hydra_mind.Prelude.{
  ℕ, String, ◌≡◌, refl, Bool, true, false, not, ◌&&◌, Option, none, some, ok, err, arith, str_eq,
  strip, truthy, execution_lease, Bool-cases, inl, inr,
}
use hydra_mind.Prelude.Exec.{◌>>=◌, pure, lift}
use hydra_mind.Prelude.Dict
use hydra_mind.Control.States.{NodeStatus, SessionStatus, is_running_attempt}
use hydra_mind.Control.Models.{NodeAttempt, NodeState, RuntimeSession, latest_attempt}
use hydra_mind.Control.Intents.{AgentReport}
use hydra_mind.Control.Store.{SessionStore, get_session}
use hydra_mind.Control.Execution
use hydra_mind.Control.Execution.{
  has_execution_lease_metadata, is_execution_lease_live, token_is, find_attempt_by_id,
}
use hydra_mind.Control.Service.Executions.{assert_execution_lease}
use hydra_mind.Control.Reports.{
  FreshIds, GateFn, ApplyDeriver, accepting, executing, check_token, check_latest, is_execution,
  assert_report_execution_lease, open_runtime_decision,
}

-- The statuses in which a session takes reports as it is.
abbrev pub takes_reports : SessionStatus → Bool
takes_reports SessionStatus.running = true
takes_reports SessionStatus.resuming = true
takes_reports _ = false

abbrev pub is_queued_node : NodeStatus → Bool
is_queued_node NodeStatus.queued = true
is_queued_node _ = false

-- Is the token the one of a lease on the attempt that is live at the time?
abbrev pub is_live_token : NodeAttempt → Option String → ℕ → Bool
is_live_token a none now = false
is_live_token a (some token) now =
    not (str_eq (strip token) "")
    && truthy a.lease_token
    && truthy a.lease_owner
    && token_is a.lease_token (strip token)
    && is_running_attempt a.status
    && is_execution_lease_live a now

-- Does the report come from the holder of the lease on the attempt?
unfoldable pub holds_lease : AgentReport → NodeAttempt → ℕ → Bool
unfolding is_execution_lease_live
holds_lease r a now = is_execution r.execution_id a.id && is_live_token a r.lease_token now

accepting-taken :
    (id : String) (now : ℕ) (s : RuntimeSession) (status : SessionStatus) (st : SessionStore)
    → takes_reports status ≡ true
    → accepting id now (record s { status = status }) st ≡ (ok (record s { status = status }), st)
unfolding ◌>>=◌
accepting-taken id now s SessionStatus.running st h = refl
accepting-taken id now s SessionStatus.resuming st h = refl
accepting-taken id now s _ st h = absurd (ground arith)

executing-executed :
    (id key : String) (now : ℕ) (n : NodeState) (status : NodeStatus) (st : SessionStore)
    → is_queued_node status ≡ false
    → executing id key now (record n { status = status }) st
      ≡ (ok (record n { status = status }), st)
unfolding ◌>>=◌
executing-executed id key now n NodeStatus.queued st h = cc h
executing-executed id key now n _ st h = refl

assert-eq :
    (s : RuntimeSession) (n : NodeState) (a : NodeAttempt) (st : SessionStore) (id token : String)
    (now : ℕ)
    → Dict.get st id ≡ some s
    → find_attempt_by_id s a.id ≡ ok (a, n)
    → assert_execution_lease id a.id token false now st
      ≡ (lift (Execution.assert_execution_lease a token now false) >>= (λ checked. pure a)) st
unfolding assert_execution_lease get_session ◌>>=◌
assert-eq s n a st id token now held found = rw (held, found) refl

assert-stale :
    (a : NodeAttempt) (token : String) (now : ℕ)
    → is_live_token a (some token) now ≡ false
    → Execution.assert_execution_lease a token now false ≡ err execution_lease
unfolding Execution.assert_execution_lease is_execution_lease_live
assert-stale a token now h = ground arith

module _ (id : String) (now : ℕ) (s : RuntimeSession) (n : NodeState) (a : NodeAttempt)
    (st : SessionStore) (held : Dict.get st id ≡ some s)
    (found : find_attempt_by_id s a.id ≡ ok (a, n)) where
  token-refused :
      (r : AgentReport) (token : Option String)
      → is_live_token a token now ≡ false
      → check_token id (record r { lease_token = token }) now a st ≡ (err execution_lease, st)
  unfolding ◌>>=◌
  token-refused r none stale = refl
  token-refused r (some token) stale =
      rw (assert-eq s n a st id token now held found, assert-stale a token now stale) refl

  check-refused :
      (r : AgentReport)
      → has_execution_lease_metadata a ≡ true
      → holds_lease r a now ≡ false
      → check_latest id r now (some a) st ≡ (err execution_lease, st)
  unfolding ◌>>=◌ holds_lease
  check-refused r leased stale = elim (Bool-cases (is_execution r.execution_id a.id)) [
    | inl same ↦ rw (leased, same) (token-refused r r.lease_token (ground arith))
    | inr other ↦ rw (leased, other) refl
  ]

module _ (gate_fn : Option GateFn) (derive : Option ApplyDeriver) (id : String) (r : AgentReport)
    (ids : FreshIds) (clock : ℕ → ℕ) (st : SessionStore) (s : RuntimeSession)
    (held : Dict.get st id ≡ some s) where
  -- Take a report on a node in a running or resuming session. The node is not queued, its last
  -- attempt has a lease, and a search of the session for the id of that attempt finds it. If the
  -- report does not come with the id of that attempt and the token of its lease, or the lease is not
  -- live, the report raises `ExecutionLeaseError` and changes nothing.
  pub stale_report_refused :
      (n : NodeState) (a : NodeAttempt)
      → takes_reports s.status ≡ true
      → Dict.get s.nodes r.node_key ≡ some n
      → is_queued_node n.status ≡ false
      → latest_attempt n ≡ some a
      → find_attempt_by_id s a.id ≡ ok (a, n)
      → has_execution_lease_metadata a ≡ true
      → holds_lease r a (clock 2) ≡ false
      → open_runtime_decision gate_fn derive id r ids clock st ≡ (err execution_lease, st)
  unfolding ◌>>=◌ open_runtime_decision get_session assert_report_execution_lease
  stale_report_refused n a taken node going latest found leased stale =
      rw
        (
          held,
          accepting-taken id (clock 0) s s.status st taken,
          node,
          executing-executed id r.node_key (clock 1) n n.status st going,
          latest,
          check-refused id (clock 2) s n a st held found r leased stale,
        )
        refl
