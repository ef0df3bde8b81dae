-- ===== src/Control/Lifecycle/Terminal.antt =====
-- What a terminal transition of a session leaves of its execution leases.
use hydra_mind.Prelude.{
  ℕ, ◌≡◌, refl, Bool, true, false, ◌&&◌, List, [], ◌∷◌, map, all, ok, arith, Option, none, some,
}
use hydra_mind.Prelude.Dict.{Dict}
use hydra_mind.Control.States.{SessionStatus, is_valid_session_transition, is_terminal}
use hydra_mind.Control.Models.{NodeState, NodeAttempt, RuntimeSession}
use hydra_mind.Control.Execution.{
  clear_node_leases, clear_session_execution_leases, clear_execution_lease,
}
use hydra_mind.Control.Lifecycle.{transition_session}

abbrev pub not_set {ℓ} : {A : Type ℓ} → Option A → Bool
not_set none = true
not_set (some a) = false

-- None of the four lease fields of an attempt is set.
unfoldable pub is_bare : NodeAttempt → Bool
is_bare a =
    not_set a.lease_token
    && not_set a.lease_owner
    && not_set a.last_heartbeat_at
    && not_set a.lease_expires_at

-- No attempt of any node has any field of a lease.
unfoldable pub is_free_of_leases : Dict NodeState → Bool
is_free_of_leases [] = true
is_free_of_leases ((k, n) ∷ d) = all is_bare n.attempts && is_free_of_leases d

cleared_attempts : (xs : List NodeAttempt) → all is_bare (map clear_execution_lease xs) ≡ true
unfolding is_bare clear_execution_lease
cleared_attempts [] = refl
cleared_attempts (x ∷ xs) = cleared_attempts xs

cleared_nodes : (d : Dict NodeState) → is_free_of_leases (clear_node_leases d) ≡ true
unfolding is_free_of_leases is_bare
cleared_nodes [] = refl
cleared_nodes ((k, n) ∷ d) = rw (cleared_attempts n.attempts) (cleared_nodes d)

-- A change of status that succeeds is one that the table allows, and gives the session that status.
-- If the new status is terminal, no attempt of any node keeps a token, an owner, a heartbeat or an
-- expiry of a lease; if it is not,
-- the nodes are left as they are.
pub transition_settles_leases :
    (s t : RuntimeSession) (to : SessionStatus) (now : ℕ)
    → transition_session s to now ≡ ok t
    → (is_valid_session_transition s.status to ≡ true)
      × (t.status ≡ to)
      × ((is_terminal to ≡ true → is_free_of_leases t.nodes ≡ true)
          × (is_terminal to ≡ false → t.nodes ≡ s.nodes))
unfolding transition_session clear_session_execution_leases
transition_settles_leases s t to now h = ground (arith, cleared_nodes s.nodes)
