-- ===== src/Control/Execution.antt =====
-- control/session_execution.py: execution leases and the search for an attempt. The records
-- of tool calls are in ToolRecords. A time is in microseconds, a time to live in seconds.
pub mod Search
pub mod Exclusive
use hydra_mind.Prelude.{
  ℕ, zero, suc, ◌+◌, ◌*◌, ℤ, pos, negsuc, String, Bool, false, not, ◌&&◌, ◌||◌, Option, none, some,
  List, [], ◌∷◌, map, Result, ok, err, Error, execution_lease, ◌>>=◌, ◌>>◌, guard, raise_if,
  is_some, truthy, strip, str_eq, if◌then◌else◌, ltb, find_first, modify_first,
}
use hydra_mind.Prelude.Dict.{Dict}
use hydra_mind.Control.States.{AttemptStatus, is_running_attempt}
use hydra_mind.Control.Models.{NodeAttempt, NodeState, RuntimeSession}

-- timedelta(seconds=n), in microseconds
abbrev pub seconds : ℕ → ℕ
seconds n = n * 1000000

-- `lease_ttl` and `turn_lease_ttl`, which differ in the exception that they raise
unfoldable pub positive_ttl : Error → ℤ → Result ℕ
positive_ttl e (pos zero) = err e
positive_ttl e (pos (suc n)) = ok (seconds (suc n))
positive_ttl e (negsuc n) = err e

abbrev pub lease_ttl : ℤ → Result ℕ
lease_ttl = positive_ttl execution_lease

-- expires_at is not None and expires_at > as_of
abbrev pub expires_after : Option ℕ → ℕ → Bool
expires_after none as_of = false
expires_after (some e) as_of = ltb as_of e

unfoldable pub is_execution_lease_live : NodeAttempt → ℕ → Bool
is_execution_lease_live a as_of =
    truthy a.lease_token && truthy a.lease_owner && expires_after a.lease_expires_at as_of

unfoldable pub has_execution_lease_metadata : NodeAttempt → Bool
has_execution_lease_metadata a =
    truthy a.lease_token || truthy a.lease_owner || is_some a.lease_expires_at

unfoldable pub clear_execution_lease : NodeAttempt → NodeAttempt
clear_execution_lease a = record a {
  lease_token = none;
  lease_owner = none;
  last_heartbeat_at = none;
  lease_expires_at = none;
}

abbrev pub clear_node_leases : Dict NodeState → Dict NodeState
clear_node_leases [] = []
clear_node_leases ((k, n) ∷ d) =
    (k, record n { attempts = map clear_execution_lease n.attempts }) ∷ clear_node_leases d

unfoldable pub clear_session_execution_leases : RuntimeSession → RuntimeSession
unfolding clear_execution_lease
clear_session_execution_leases s = record s { nodes = clear_node_leases s.nodes }

abbrev pub has_id : String → NodeAttempt → Bool
has_id execution_id a = str_eq a.id execution_id

unfoldable pub find_attempt : Dict NodeState → String → Result (NodeAttempt × NodeState)
find_attempt [] execution_id = err execution_lease
find_attempt ((k, n) ∷ d) execution_id = elim (find_first (has_id execution_id) n.attempts) [
  | none ↦ find_attempt d execution_id
  | some a ↦ ok (a, n)
]

abbrev pub find_attempt_by_id : RuntimeSession → String → Result (NodeAttempt × NodeState)
find_attempt_by_id s = find_attempt s.nodes

-- The attempt that `find_attempt` returns becomes `b`, and its node is stamped: what the source
-- does by writing to the two objects in place.
unfoldable pub write_attempt : Dict NodeState → String → NodeAttempt → ℕ → Dict NodeState
write_attempt [] execution_id b now = []
write_attempt ((k, n) ∷ d) execution_id b now = elim (find_first (has_id execution_id) n.attempts) [
  | none ↦ (k, n) ∷ write_attempt d execution_id b now
  | some a ↦
      (
        k,
        record n {
          attempts = modify_first (has_id execution_id) (λ _. b) n.attempts;
          updated_at = now;
        },
      )
      ∷ d
]

abbrev pub with_attempt : RuntimeSession → String → NodeAttempt → ℕ → RuntimeSession
with_attempt s execution_id b now = record s {
  nodes = write_attempt s.nodes execution_id b now;
  updated_at = now;
}

-- `lease_token or f"lease-{...}"`
abbrev pub or_fresh : Option String → String → String
or_fresh none fresh = fresh
or_fresh (some t) fresh = if str_eq t "" then fresh else t

-- The checks of a grant on the attempt that was found, and the lease that it writes.
unfoldable pub leased :
    NodeAttempt → String → String → ℤ → Option String → String → ℕ → Result NodeAttempt
unfolding is_execution_lease_live positive_ttl
leased a node_key owner ttl_seconds lease_token fresh now = do
  guard (str_eq a.node_key node_key) execution_lease
  guard (is_running_attempt a.status) execution_lease
  raise_if (str_eq (strip owner) "") execution_lease
  raise_if (is_execution_lease_live a now) execution_lease
  raise_if (str_eq (strip (or_fresh lease_token fresh)) "") execution_lease
  ttl ← lease_ttl ttl_seconds
  ok (record a {
    lease_token = some (or_fresh lease_token fresh);
    lease_owner = some (strip owner);
    last_heartbeat_at = some now;
    lease_expires_at = some (now + ttl);
  })

unfoldable pub grant_execution_lease :
    RuntimeSession
    → String
    → String
    → String
    → ℤ
    → Option String
    → String
    → ℕ
    → Result (RuntimeSession × NodeAttempt)
grant_execution_lease s node_key execution_id owner ttl_seconds lease_token fresh now = do
  found ← find_attempt_by_id s execution_id
  b ← leased found.0 node_key owner ttl_seconds lease_token fresh now
  ok (with_attempt s execution_id b now, b)

-- attempt.lease_token != token
abbrev pub token_is : Option String → String → Bool
token_is none token = false
token_is (some t) token = str_eq t token

unfoldable pub assert_execution_lease : NodeAttempt → String → ℕ → Bool → Result (Unit {0})
unfolding is_execution_lease_live
assert_execution_lease a lease_token as_of allow_expired = do
  raise_if (str_eq (strip lease_token) "") execution_lease
  guard (truthy a.lease_token && truthy a.lease_owner) execution_lease
  guard (token_is a.lease_token (strip lease_token)) execution_lease
  guard (is_running_attempt a.status) execution_lease
  guard (allow_expired || is_execution_lease_live a as_of) execution_lease

unfoldable pub heartbeat_execution_lease :
    RuntimeSession → String → String → ℤ → ℕ → Result (RuntimeSession × NodeAttempt)
heartbeat_execution_lease s execution_id lease_token ttl_seconds now = do
  found ← find_attempt_by_id s execution_id
  assert_execution_lease found.0 lease_token now false
  ttl ← lease_ttl ttl_seconds
  let b = record (found.0) { last_heartbeat_at = some now; lease_expires_at = some (now + ttl) }
  ok (with_attempt s execution_id b now, b)

unfoldable pub release_execution_lease :
    RuntimeSession → String → String → ℕ → Result (RuntimeSession × NodeAttempt × Option String)
release_execution_lease s execution_id lease_token now = do
  found ← find_attempt_by_id s execution_id
  assert_execution_lease found.0 lease_token now Bool.true
  let b = clear_execution_lease found.0
  ok (with_attempt s execution_id b now, b, found.0.lease_owner)
