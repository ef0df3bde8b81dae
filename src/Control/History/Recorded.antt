-- ===== src/Control/History/Recorded.antt =====
-- What the actions on a node leave in the store when they return.
use hydra_mind.Prelude.{
  guard, Error, invalid_transition, ℕ, String, ◌≡◌, refl, ap, sym, ◌∙◌, subst, Bool, true, false,
  Option, some, [], ◌∷◌, ok, arith, Bool-cases, inl, inr, if◌then◌else◌, str_eq, eq_refl,
  ok-injective, some-injective,
}
use hydra_mind.Prelude.{◌>>=◌ as result_bind}
use hydra_mind.Prelude.Exec.{pure, lift, ◌>>=◌}
use hydra_mind.Prelude.Dict
use hydra_mind.Prelude.Dict.{Dict, Payload, get-put}
use hydra_mind.Control.States.{NodeStatus, SessionStatus, is_terminal, is_valid_session_transition}
use hydra_mind.Control.Models.{NodeAttempt, NodeState, RuntimeSession}
use hydra_mind.Control.Execution.{clear_node_leases, clear_session_execution_leases}
use hydra_mind.Control.NodeLifecycle.{
  node_transition, complete_running_attempt, fail_running_attempt, end_running_attempt,
  abort_and_requeue_node,
}
use hydra_mind.Control.Lifecycle.{transition_session}
use hydra_mind.Control.Store.{SessionStore, Action, put, get_session, bump_version}
use hydra_mind.Control.Store.Reads.{bind-ok, get_session-ok, put-ok}
use hydra_mind.Control.Store.Extension.{WellFormed}
use hydra_mind.Control.Store.Rules.{IsSafe}
use hydra_mind.Control.Service.Nodes.{
  require_node, with_node, node_only_transition, complete_node, fail_node, requeue_node_for_retry,
}
use hydra_mind.Control.Service.Sessions.{session_transition, fail_session}
use hydra_mind.Control.Apply.{run_from, ensure_session_running}
use hydra_mind.Control.History.Safe.{transition-IsSafe}

-- An action that, when it returns, leaves a result and a store of which the predicate holds.
pub record Ends {A : Type 0} (P : A → SessionStore → Type 0) (m : Action A) : Type 0 where
  pub at : (st st' : SessionStore) (a : A) → WellFormed st → m st ≡ (ok a, st') → P a st'

-- The same from a store of which another predicate holds.
pub record EndsFrom {A : Type 0} (Q : SessionStore → Type 0) (P : A → SessionStore → Type 0)
    (m : Action A) : Type 0 where
  pub at : (st st' : SessionStore) (a : A) → WellFormed st → Q st → m st ≡ (ok a, st') → P a st'

-- The node of a session has a status.
abbrev pub HasNode : String → String → NodeStatus → SessionStore → Type 0
HasNode id key status st =
    (s : RuntimeSession) × (n : NodeState) × (Dict.get st id ≡ some s)
    × (Dict.get s.nodes key ≡ some n)
    × (n.status ≡ status)

module _ {A B : Type 0} (P : B → SessionStore → Type 0) (m : Action A) (k : A → Action B) where
  pub Ends-later : IsSafe m → ((a : A) → Ends P (k a)) → Ends P (m >>= k)
  Ends-later safe later = record {
    at = λ st st' b w h.
        let (a, first, rest) = bind-ok m k st st' b h in
        (later a).at (m st).1 st' b (safe.at st w).formed rest;
  }

  pub Ends-then :
      (Q : SessionStore → Type 0)
      → IsSafe m
      → Ends (λ a. Q) m
      → ((a : A) → EndsFrom Q P (k a))
      → Ends P (m >>= k)
  Ends-then Q safe now later = record {
    at = λ st st' b w h.
        let (a, first, rest) = bind-ok m k st st' b h in
        (later a).at (m st).1 st' b (safe.at st w).formed
          (now.at st (m st).1 a w (ap (λ r. (r, (m st).1)) first)) rest;
  }

  pub EndsFrom-then :
      (Q : SessionStore → Type 0)
      → IsSafe m
      → EndsFrom Q (λ a. Q) m
      → ((a : A) → EndsFrom Q P (k a))
      → EndsFrom Q P (m >>= k)
  EndsFrom-then Q safe now later = record {
    at = λ st st' b w q h.
        let (a, first, rest) = bind-ok m k st st' b h in
        (later a).at (m st).1 st' b (safe.at st w).formed
          (now.at st (m st).1 a w q (ap (λ r. (r, (m st).1)) first)) rest;
  }

-- Where a node is written into a session that was fetched under its id.
put_node-HasNode :
    (s : RuntimeSession) (id key : String) (m : NodeState) (status : NodeStatus) (st : SessionStore)
    (u : RuntimeSession)
    → s.id ≡ id
    → m.status ≡ status
    → (put (with_node s key m) st).0 ≡ ok u
    → HasNode id key status (put (with_node s key m) st).1
put_node-HasNode s id key m status st u same has h =
    subst (λ x. HasNode x key status (put (with_node s key m) st).1) same
      (
        bump_version (with_node s key m),
        m,
        (put-ok (with_node s key m) st u h).0,
        rw (get-put s.nodes key key m, eq_refl key) refl,
        has,
      )

ended-status :
    (m : NodeState) (output : Option Payload) (now : ℕ) {r : NodeState × Option NodeAttempt}
    → complete_running_attempt m output now ≡ ok r
    → r.0.status ≡ m.status
unfolding complete_running_attempt end_running_attempt
ended-status m output now h = ground arith

failed-status :
    (m : NodeState) (error : String) (now : ℕ) {r : NodeState × Option NodeAttempt}
    → fail_running_attempt m error now ≡ ok r
    → r.0.status ≡ m.status
unfolding fail_running_attempt end_running_attempt
failed-status m error now h = ground arith

moved-status :
    (n : NodeState) (to : NodeStatus) (now : ℕ) {m : NodeState}
    → node_transition n to now ≡ ok m
    → m.status ≡ to
unfolding node_transition
moved-status n to now h = ground arith

requeued-status :
    (n : NodeState) (reason : String) (now : ℕ) {r : NodeState × Option NodeAttempt}
    → abort_and_requeue_node n reason now ≡ ok r
    → r.0.status ≡ NodeStatus.queued
unfolding abort_and_requeue_node node_transition
requeued-status n reason now h = ground arith

pub complete_node-HasNode :
    (id key : String) (output : Option Payload) (now : ℕ)
    → Ends (λ a. HasNode id key NodeStatus.completed) (complete_node id key output now)
unfolding complete_node ◌>>=◌
complete_node-HasNode id key output now = record {
  at = λ st st' a w h.
      let (s, e1, h1) = bind-ok (get_session id) _ st st' a h in
      let (n, e2, h2) = bind-ok (lift (require_node s key)) _ _ st' a h1 in
      let (m, e3, h3) = bind-ok (lift (node_transition n NodeStatus.completed now)) _ _ st' a h2 in
      let (r, e4, h4) = bind-ok (lift (complete_running_attempt m output now)) _ _ st' a h3 in
      let (u, e5, h5) = bind-ok (put (with_node s key r.0)) _ _ st' a h4 in
      subst (HasNode id key NodeStatus.completed) (ap (λ x. x.1) h5) (
        put_node-HasNode s id key r.0 NodeStatus.completed _ u
          (w.ids id s (get_session-ok id st s e1).0)
          (ended-status m output now e4 ∙ moved-status n NodeStatus.completed now e3) e5);
}

pub fail_node-HasNode :
    (id key error : String) (now : ℕ)
    → Ends (λ a. HasNode id key NodeStatus.failed) (fail_node id key error now)
unfolding fail_node ◌>>=◌
fail_node-HasNode id key error now = record {
  at = λ st st' a w h.
      let (s, e1, h1) = bind-ok (get_session id) _ st st' a h in
      let (n, e2, h2) = bind-ok (lift (require_node s key)) _ _ st' a h1 in
      let (m, e3, h3) = bind-ok (lift (node_transition n NodeStatus.failed now)) _ _ st' a h2 in
      let (r, e4, h4) = bind-ok (lift (fail_running_attempt m error now)) _ _ st' a h3 in
      let (u, e5, h5) = bind-ok (put (with_node s key r.0)) _ _ st' a h4 in
      subst (HasNode id key NodeStatus.failed) (ap (λ x. x.1) h5) (
        put_node-HasNode s id key r.0 NodeStatus.failed _ u
          (w.ids id s (get_session-ok id st s e1).0)
          (failed-status m error now e4 ∙ moved-status n NodeStatus.failed now e3) e5);
}

pub node_transition-HasNode :
    (id key : String) (to : NodeStatus) (now : ℕ)
    → Ends (λ a. HasNode id key to) (node_only_transition id key to now)
unfolding node_only_transition ◌>>=◌
node_transition-HasNode id key to now = record {
  at = λ st st' a w h.
      let (s, e1, h1) = bind-ok (get_session id) _ st st' a h in
      let (n, e2, h2) = bind-ok (lift (require_node s key)) _ _ st' a h1 in
      let (m, e3, h3) = bind-ok (lift (node_transition n to now)) _ _ st' a h2 in
      let (u, e5, h5) = bind-ok (put (with_node s key m)) _ _ st' a h3 in
      subst (HasNode id key to) (ap (λ x. x.1) h5) (
        put_node-HasNode s id key m to _ u (w.ids id s (get_session-ok id st s e1).0)
          (moved-status n to now e3) e5);
}

pub requeue-HasNode :
    (id key reason : String) (now : ℕ)
    → Ends (λ a. HasNode id key NodeStatus.queued) (requeue_node_for_retry id key reason now)
unfolding requeue_node_for_retry ◌>>=◌
requeue-HasNode id key reason now = record {
  at = λ st st' a w h.
      let (s, e1, h1) = bind-ok (get_session id) _ st st' a h in
      let (n, e2, h2) = bind-ok (lift (require_node s key)) _ _ st' a h1 in
      let (r, e3, h3) = bind-ok (lift (abort_and_requeue_node n reason now)) _ _ st' a h2 in
      let (u, e5, h5) =
        bind-ok (put (record (with_node s key r.0) { updated_at = now })) _ _ st' a h3 in
      subst (HasNode id key NodeStatus.queued) (ap (λ x. x.1) h5) (
        put_node-HasNode (record s { updated_at = now }) id key r.0 NodeStatus.queued _ u
          (w.ids id s (get_session-ok id st s e1).0) (requeued-status n reason now e3) e5);
}

-- The nodes of a later session have the statuses of an earlier one.
pub record SameStatuses (s t : RuntimeSession) : Type 0 where
  pub same_id : t.id ≡ s.id
  pub statuses :
      (key : String) (n : NodeState)
      → Dict.get s.nodes key ≡ some n
      → (m : NodeState) × (Dict.get t.nodes key ≡ some m) × (m.status ≡ n.status)

cleared-status :
    (d : Dict NodeState) (key : String) (n : NodeState)
    → Dict.get d key ≡ some n
    → (m : NodeState) × (Dict.get (clear_node_leases d) key ≡ some m) × (m.status ≡ n.status)
unfolding Dict.get
cleared-status [] key n h = cc h
cleared-status ((k, x) ∷ d) key n h = elim (Bool-cases (str_eq k key)) [
  | inl here ↦ rw here (_, refl, ap (λ (y : NodeState). y.status) (same here))
  | inr past ↦ rw past (cleared-status d key n (later past))
]
  where
    same : str_eq k key ≡ true → x ≡ n
    same here = some-injective (subst (λ b. (if b then some x else Dict.get d key) ≡ some n) here h)

    later : str_eq k key ≡ false → Dict.get d key ≡ some n
    later past = ground (arith, h)

terminal-SameStatuses :
    (b : Bool) (s moved : RuntimeSession)
    → moved.id ≡ s.id
    → moved.nodes ≡ s.nodes
    → SameStatuses s (if b then clear_session_execution_leases moved else moved)
unfolding clear_session_execution_leases
terminal-SameStatuses true s moved i e = record {
  same_id = i;
  statuses = λ key n h. cleared-status moved.nodes key n (rw e h);
}
terminal-SameStatuses false s moved i e = record {
  same_id = i;
  statuses = λ key n h. (n, rw e h, refl);
}

guarded :
    {A : Type 0} {a b : A} (e : Error) (valid : Bool)
    → result_bind (guard valid e) (λ _. ok a) ≡ ok b
    → a ≡ b
guarded e true h = ok-injective h
guarded e false h = cc h

transition_to :
    (s : RuntimeSession) (to : SessionStatus) (now : ℕ) (t : RuntimeSession)
    → transition_session s to now ≡ ok t
    → let moved = record s { status = to; updated_at = now } in
      (if is_terminal to then clear_session_execution_leases moved else moved) ≡ t
unfolding transition_session
transition_to s to now t h = guarded invalid_transition (is_valid_session_transition s.status to) h

transition-SameStatuses :
    (s : RuntimeSession) (to : SessionStatus) (now : ℕ) (t : RuntimeSession)
    → transition_session s to now ≡ ok t
    → SameStatuses s t
transition-SameStatuses s to now t h = subst (SameStatuses s) (transition_to s to now t h) (
    terminal-SameStatuses (is_terminal to) s (record s { status = to; updated_at = now }) refl refl)

-- A change of the session's status leaves the status of its nodes, in the store and in its result.
transition-nodes :
    (id key : String) (status : NodeStatus) (to : SessionStatus) (now : ℕ) (st st' : SessionStore)
    (u : RuntimeSession)
    → WellFormed st
    → HasNode id key status st
    → session_transition id to now st ≡ (ok u, st')
    → HasNode id key status st'
      × ((u.id ≡ id) × ((n : NodeState) × (Dict.get u.nodes key ≡ some n) × (n.status ≡ status)))
unfolding session_transition ◌>>=◌
transition-nodes id key status to now st st' u w (s0, n, held, at_key, has) h =
    let (s, e1, h1) = bind-ok (get_session id) _ st st' u h in
    let (t, e2, h2) = bind-ok (lift (transition_session s to now)) _ _ st' u h1 in
    let same = some-injective (sym (get_session-ok id st s e1).0 ∙ held) in
    let ss = transition-SameStatuses s to now t e2 in
    let node = ss.statuses key n (subst (λ x. Dict.get x.nodes key ≡ some n) (sym same) at_key) in
    let written = put-ok t (get_session id st).1 u (ap (λ x. x.0) h2) in
    let known = ss.same_id ∙ w.ids id s (get_session-ok id st s e1).0 in
    (
      subst (HasNode id key status) (ap (λ x. x.1) h2) (
        bump_version t,
        node.0,
        subst (λ x. Dict.get (put t (get_session id st).1).1 x ≡ some (bump_version t)) known
            written.0,
        node.1,
        node.2 ∙ has,
      ),
      (
        ap (λ (x : RuntimeSession). x.id) written.1 ∙ known,
        (
          node.0,
          ap (λ (x : RuntimeSession). Dict.get x.nodes key) written.1 ∙ node.1,
          node.2 ∙ has,
        ),
      ),
    )

pub transition-keeps :
    (id key : String) (status : NodeStatus) (to : SessionStatus) (now : ℕ)
    → EndsFrom (HasNode id key status) (λ u. HasNode id key status) (session_transition id to now)
transition-keeps id key status to now = record {
  at = λ st st' u w q h. (transition-nodes id key status to now st st' u w q h).0;
}

module _ (id key : String) (status : NodeStatus) where
  pub pure-keeps :
      {A : Type 0} (a : A) → EndsFrom (HasNode id key status) (λ u. HasNode id key status) (pure a)
  unfolding ◌>>=◌
  pure-keeps a = record { at = λ st st' u w q h. subst (HasNode id key status) (ap (λ x. x.1) h) q }

  run_from-keeps :
      (now : ℕ) (s : SessionStatus)
      → EndsFrom (HasNode id key status) (λ u. HasNode id key status) (run_from id now s)
  run_from-keeps now SessionStatus.resuming =
      EndsFrom-then _ (session_transition id SessionStatus.running now) _ _
        (transition-IsSafe id SessionStatus.running now)
        (transition-keeps id key status SessionStatus.running now) (λ t. pure-keeps tt)
  run_from-keeps now _ = pure-keeps tt

  pub ensure-keeps :
      (now : ℕ)
      → EndsFrom
          (HasNode id key status)
          (λ u. HasNode id key status)
          (ensure_session_running id now)
  unfolding ensure_session_running
  ensure-keeps now = record {
    at = λ st st' u w q h.
        let (s, e, rest) = bind-ok (get_session id) _ st st' u h in
        let same = (get_session-ok id st s e).1 in
        (run_from-keeps now s.status).at st st' u w q
          (subst (λ x. run_from id now s.status x ≡ (ok u, st')) same rest);
  }

  pub fail_session-keeps :
      (error : String) (now : ℕ)
      → EndsFrom (HasNode id key status) (λ u. HasNode id key status) (fail_session id error now)
  unfolding fail_session
  fail_session-keeps error now = record {
    at = λ st st' u w q h.
        let (t, e, rest) = bind-ok (session_transition id SessionStatus.failed now) _ st st' u h in
        let kept =
          transition-nodes id key status SessionStatus.failed now st _ t w q
            (ap (λ r. (r, (session_transition id SessionStatus.failed now st).1)) e) in
        let node = kept.1.1 in
        let written = put-ok (record t { error_message = some error }) _ u (ap (λ x. x.0) rest) in
        subst (HasNode id key status) (ap (λ x. x.1) rest) (
          subst
            (λ x.
              HasNode x key status
                (put (record t { error_message = some error })
                  (session_transition id SessionStatus.failed now st).1).1)
            kept.1.0 (_, node.0, written.0, node.1, node.2));
  }
