-- ===== src/Examples/Leases.antt =====
-- Leases on a session with one running attempt.
use hydra_mind.Prelude.{
  ℕ, ℤ, pos, ◌≡◌, refl, true, false, none, some, ok, err, execution_lease, String, Bool, arith,
  if◌then◌else◌, ◌&&◌, ◌||◌, str_eq, strip, ltb, Option, ◌<◌, ◌+◌,
}
use hydra_mind.Control.States.{SessionStatus, is_valid_session_transition, is_terminal}
use hydra_mind.Control.Models.{NodeAttempt, NodeState, RuntimeSession}
use hydra_mind.Control.Execution.{
  find_attempt, leased, write_attempt, grant_execution_lease, assert_execution_lease,
  heartbeat_execution_lease, release_execution_lease, is_execution_lease_live, seconds,
}
use hydra_mind.Control.Execution.Exclusive.{
  grant_excludes, grant_token, heartbeat_extends, release_clears,
}
use hydra_mind.Control.Execution.{find_attempt_by_id}
use hydra_mind.Control.Lifecycle.{transition_session}
use hydra_mind.Control.Lifecycle.Terminal.{transition_settles_leases, is_free_of_leases}
use hydra_mind.Examples.Data.{first_attempt, leased_attempt, session_with}

granted :
    grant_execution_lease (session_with first_attempt) "plan" "a1" "worker" (pos 1) none "tok" 0
    ≡ ok (session_with leased_attempt, leased_attempt)
unfolding grant_execution_lease find_attempt leased strip write_attempt
granted = refl

grant_excludes_example :
    grant_execution_lease (session_with leased_attempt) "plan" "a1" "other" (pos 5) none "tok2" 10
    ≡ err execution_lease
grant_excludes_example =
    grant_excludes (session_with first_attempt) "plan" "a1" "worker" 0 none "tok" 0 granted "plan"
      "other" (pos 5) none "tok2" 10 (omega arith)

grant_token_example : assert_execution_lease leased_attempt " tok " 10 false ≡ (
    if str_eq "tok" (strip " tok ") && (false || ltb 10 (0 + seconds 1))
    then ok tt
    else err execution_lease)
grant_token_example =
    grant_token (session_with first_attempt) "plan" "a1" "worker" 0 none "tok" 0 granted " tok " 10
      false

heartbeat_extends_example :
    (u : RuntimeSession) × (c : NodeAttempt) × (heartbeat_execution_lease
        (session_with leased_attempt)
        "a1"
        "tok"
        (pos 2)
        10
      ≡ ok (u, c))
    × (c.lease_expires_at ≡ some (10 + seconds 2))
    × ((key' owner' : String) (ttl' : ℤ) (token' : Option String) (fresh' : String) (after : ℕ)
        → after < 10 + seconds 2
        → grant_execution_lease u key' "a1" owner' ttl' token' fresh' after ≡ err execution_lease)
unfolding strip
heartbeat_extends_example =
    heartbeat_extends (session_with first_attempt) "plan" "a1" "worker" 0 none "tok" 0 granted "tok"
      1 10 refl (omega arith)

release_clears_example :
    (u : RuntimeSession) × (c : NodeAttempt) × (release_execution_lease
        (session_with leased_attempt)
        "a1"
        "tok"
        10
      ≡ ok (u, c, some (strip "worker")))
    × ((node : NodeState) × (find_attempt_by_id u "a1" ≡ ok (c, node)))
    × ((any_token : String) (at : ℕ)
        → release_execution_lease u "a1" any_token at ≡ err execution_lease)
    × ((any_token : String) (at : ℕ) (allow_expired : Bool)
        → assert_execution_lease c any_token at allow_expired ≡ err execution_lease)
    × ((at : ℕ) → is_execution_lease_live c at ≡ false)
unfolding strip
release_clears_example =
    release_clears (session_with first_attempt) "plan" "a1" "worker" 0 none "tok" 0 granted "tok" 10
      refl

transition_settles_leases_example :
    (is_valid_session_transition SessionStatus.running SessionStatus.cancelled ≡ true)
    × (SessionStatus.cancelled ≡ SessionStatus.cancelled)
    × ((is_terminal SessionStatus.cancelled ≡ true
          → is_free_of_leases (session_with first_attempt).nodes ≡ true)
        × (is_terminal SessionStatus.cancelled ≡ false
            → (session_with first_attempt).nodes ≡ (session_with leased_attempt).nodes))
unfolding transition_session
transition_settles_leases_example =
    transition_settles_leases (session_with leased_attempt)
      (record (session_with first_attempt) { status = SessionStatus.cancelled; updated_at = 7 })
      SessionStatus.cancelled 7 refl
