-- ===== src/Control/Execution/Exclusive.antt =====
-- Execution leases exclude one another, and only the token of a lease works on it.
use hydra_mind.Prelude.{
  ℕ, suc, ◌+◌, ◌<◌, ℤ, pos, String, ◌≡◌, refl, sym, ◌∙◌, Bool, true, false, ◌&&◌, ◌||◌, Option,
  some, ok, err, arith, str_eq, execution_lease, if◌then◌else◌, strip, eq_iff, >>=-eq-ok,
  ok-injective, subst, ltb, lt→ltb,
}
use hydra_mind.Control.States.{is_running_attempt}
use hydra_mind.Control.Models.{NodeAttempt, NodeState, RuntimeSession}
use hydra_mind.Control.Execution.{
  find_attempt_by_id, with_attempt, leased, grant_execution_lease, assert_execution_lease,
  heartbeat_execution_lease, release_execution_lease, clear_execution_lease, or_fresh, seconds,
  positive_ttl, is_execution_lease_live,
}
use hydra_mind.Control.Execution.Search.{find_attempt-write_attempt, find_attempt-has_id}
use hydra_mind.Prelude.Text.{not_blank}

-- What a grant that succeeds has written.
pub record IsLeased (a b : NodeAttempt) (owner token : String) (n now : ℕ) : Type 0 where
  pub same_id : b.id ≡ a.id
  pub token_set : b.lease_token ≡ some token
  pub owner_set : b.lease_owner ≡ some (strip owner)
  pub expiry_set : b.lease_expires_at ≡ some (now + seconds (suc n))
  pub token_text : str_eq (strip token) "" ≡ false
  pub owner_text : str_eq (strip owner) "" ≡ false
  pub still_running : is_running_attempt b.status ≡ true

leased-IsLeased :
    (a : NodeAttempt) (key owner : String) (n : ℕ) (token : Option String) (fresh : String)
    (now : ℕ) {b : NodeAttempt}
    → leased a key owner (pos (suc n)) token fresh now ≡ ok b
    → IsLeased a b owner (or_fresh token fresh) n now
unfolding leased
leased-IsLeased a key owner n token fresh now h = ground arith

leased_ttl :
    (a : NodeAttempt) (key owner : String) (ttl : ℤ) (token : Option String) (fresh : String)
    (now : ℕ) {b : NodeAttempt}
    → leased a key owner ttl token fresh now ≡ ok b
    → (n : ℕ) × (ttl ≡ pos (suc n))
unfolding leased
leased_ttl a key owner (pos (suc n)) token fresh now h = (n, refl)
leased_ttl a key owner ttl token fresh now h = absurd (ground arith)

IsLeased-live :
    {a b : NodeAttempt} {owner token : String} {n now : ℕ} (as_of : ℕ)
    → IsLeased a b owner token n now
    → is_execution_lease_live b as_of ≡ ltb as_of (now + seconds (suc n))
unfolding is_execution_lease_live
IsLeased-live {token} as_of l = ground (arith, not_blank token l.token_text)

live_refused :
    (u : RuntimeSession) (key execution_id owner : String) (ttl : ℤ) (token : Option String)
    (fresh : String) (now : ℕ) {c : NodeAttempt} {m : NodeState}
    → find_attempt_by_id u execution_id ≡ ok (c, m)
    → is_execution_lease_live c now ≡ true
    → grant_execution_lease u key execution_id owner ttl token fresh now ≡ err execution_lease
unfolding grant_execution_lease leased
live_refused u key execution_id owner ttl token fresh now found live = rw found (ground arith)

module _ (s : RuntimeSession) (key execution_id owner : String) (n : ℕ) (token : Option String)
    (fresh : String) (now : ℕ) {t : RuntimeSession} {b : NodeAttempt}
    (granted : grant_execution_lease s key execution_id owner (pos (suc n)) token fresh now
      ≡ ok (t, b)) where
  -- After a grant the search finds the attempt with its lease.
  grant-find :
      (a : NodeAttempt) × (m : NodeState) × (find_attempt_by_id t execution_id ≡ ok (b, m))
      × IsLeased a b owner (or_fresh token fresh) n now
  unfolding grant_execution_lease
  grant-find =
      let ((a, m), found, rest) = >>=-eq-ok (find_attempt_by_id s execution_id) _ granted in
      let (c, wrote, same) = >>=-eq-ok (leased a key owner (pos (suc n)) token fresh now) _ rest in
      let l = leased-IsLeased a key owner n token fresh now wrote in
      let (n', later, _) =
        find_attempt-write_attempt s.nodes execution_id c now
          (rw l.same_id (find_attempt-has_id s.nodes execution_id found)) found in
      subst
        (λ (p : RuntimeSession × NodeAttempt).
          (a : NodeAttempt) × (m : NodeState) × (find_attempt_by_id p.0 execution_id ≡ ok (p.1, m))
          × IsLeased a p.1 owner (or_fresh token fresh) n now)
        (ok-injective same) (a, n', later, l)

  -- After a grant with `n + 1` seconds to live, and while they have not passed, every other grant
  -- on the same execution is refused.
  pub grant_excludes :
      (key' owner' : String) (ttl' : ℤ) (token' : Option String) (fresh' : String) (later : ℕ)
      → later < now + seconds (suc n)
      → grant_execution_lease t key' execution_id owner' ttl' token' fresh' later
        ≡ err execution_lease
  grant_excludes key' owner' ttl' token' fresh' later early =
      let (a, m, found, l) = grant-find in
      live_refused t key' execution_id owner' ttl' token' fresh' later found
        (IsLeased-live later l ∙ lt→ltb later (now + seconds (suc n)) early)

  -- On the attempt of a grant, the caller's token, stripped, has to be the granted token; unless
  -- expired leases are allowed the lease has to be live. These are all the conditions that the
  -- attempt with the lease is checked for.
  pub grant_token :
      (caller : String) (later : ℕ) (allow_expired : Bool)
      → assert_execution_lease b caller later allow_expired ≡ (
          if str_eq (or_fresh token fresh) (strip caller)
            && (allow_expired || ltb later (now + seconds (suc n)))
          then ok tt
          else err execution_lease)
  unfolding assert_execution_lease
  grant_token caller later allow_expired =
      let (a, m, found, l) = grant-find in
      ground (
        arith,
        IsLeased-live later l,
        not_blank (or_fresh token fresh) l.token_text,
        eq_iff (or_fresh token fresh) (strip caller),
      )

  -- After a grant and before its expiry the holder of the token moves the expiry to its own time to
  -- live from now, and keeps the lease: grants stay refused until then.
  pub heartbeat_extends :
      (caller : String) (m later : ℕ)
      → strip caller ≡ or_fresh token fresh
      → later < now + seconds (suc n)
      → (u : RuntimeSession) × (c : NodeAttempt) × (heartbeat_execution_lease t execution_id caller
            (pos (suc m))
            later
          ≡ ok (u, c))
        × (c.lease_expires_at ≡ some (later + seconds (suc m)))
        × ((key' owner' : String) (ttl' : ℤ) (token' : Option String) (fresh' : String) (after : ℕ)
            → after < later + seconds (suc m)
            → grant_execution_lease u key' execution_id owner' ttl' token' fresh' after
              ≡ err execution_lease)
  unfolding heartbeat_execution_lease positive_ttl is_execution_lease_live
  heartbeat_extends caller m later e early =
      let (a, node, found, l) = grant-find in
      let c : NodeAttempt = record b {
        last_heartbeat_at = some later;
        lease_expires_at = some (later + seconds (suc m));
      } in
      let passed : assert_execution_lease b caller later false ≡ ok tt =
        grant_token caller later false
        ∙ ground (arith, eq_iff (or_fresh token fresh) (strip caller), sym e) in
      let (node', again, _) =
        find_attempt-write_attempt t.nodes execution_id c later
          (find_attempt-has_id t.nodes execution_id found) found in
      (
        with_attempt t execution_id c later,
        c,
        rw found (rw passed),
        refl,
        λ key' owner' ttl' token' fresh' after soon.
            live_refused (with_attempt t execution_id c later) key' execution_id owner' ttl' token'
              fresh' after again (c-live l after soon),
      )
    where
      c-live :
          {a : NodeAttempt}
          → IsLeased a b owner (or_fresh token fresh) n now
          → (after : ℕ) → after < later + seconds (suc m)
          → is_execution_lease_live
              (record b {
                last_heartbeat_at = some later;
                lease_expires_at = some (later + seconds (suc m));
              })
              after
            ≡ true
      c-live l after soon = ground (arith, not_blank (or_fresh token fresh) l.token_text)

  -- After a grant, a release by the holder of the token gives the owner back and clears the lease.
  -- The session that it leaves holds the cleared attempt under the id of the execution: no token
  -- passes on it, a second release raises with any token, and the attempt is not under a live lease
  -- at any time.
  pub release_clears :
      (caller : String) (later : ℕ)
      → strip caller ≡ or_fresh token fresh
      → (u : RuntimeSession) × (c : NodeAttempt) × (release_execution_lease t execution_id caller
            later
          ≡ ok (u, c, some (strip owner)))
        × ((node : NodeState) × (find_attempt_by_id u execution_id ≡ ok (c, node)))
        × ((any_token : String) (at : ℕ)
            → release_execution_lease u execution_id any_token at ≡ err execution_lease)
        × ((any_token : String) (at : ℕ) (allow_expired : Bool)
            → assert_execution_lease c any_token at allow_expired ≡ err execution_lease)
        × ((at : ℕ) → is_execution_lease_live c at ≡ false)
  unfolding release_execution_lease clear_execution_lease assert_execution_lease
      is_execution_lease_live
  release_clears caller later e =
      let (a, node, found, l) = grant-find in
      let passed : assert_execution_lease b caller later true ≡ ok tt =
        grant_token caller later true
        ∙ ground (arith, eq_iff (or_fresh token fresh) (strip caller), sym e) in
      let (node', again, _) =
        find_attempt-write_attempt t.nodes execution_id (clear_execution_lease b) later
          (find_attempt-has_id t.nodes execution_id found) found in
      (
        with_attempt t execution_id (clear_execution_lease b) later,
        clear_execution_lease b,
        rw found (rw passed (rw l.owner_set)),
        (node', again),
        (λ any_token at. rw again (ground arith)),
        (λ any_token at allow. ground arith),
        (λ at. refl),
      )
