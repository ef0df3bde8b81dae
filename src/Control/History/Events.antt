-- ===== src/Control/History/Events.antt =====
-- An interaction event is logged once, over histories of calls.
use hydra_mind.Prelude.{
  ℕ, ◌≡◌, refl, true, false, some, List, [], ok, arith, eq_refl, sym, Bool-cases, ◌∙◌, inl, inr,
  Json, Error, err, subst, Result-cases, eq_iff,
}
use hydra_mind.Prelude.Exec.{◌>>=◌}
use hydra_mind.Prelude.Dict
use hydra_mind.Prelude.Dict.{Payload, get-put}
use hydra_mind.Control.Models.{RuntimeSession}
use hydra_mind.Control.Store.{SessionStore, bump_version}
use hydra_mind.Control.Store.Conflicts.{put-current}
use hydra_mind.Control.History.Calls.{Call, run}
use hydra_mind.Control.History.Permanent.{run-Later, reachable-WellFormed}
use hydra_mind.Control.History.SafeRecords.{event-IsSafe, logged-IsFramed}
use hydra_mind.Control.InteractionLog.{
  InteractionLogRecord, interaction_idempotency_key, append_interaction_log,
}
use hydra_mind.Control.Service.Records.{record_interaction_event, event_detail}
use hydra_mind.Control.Service.Ledger.{is_processed, with_key}
use hydra_mind.Control.History.Once.{get-found, ledger-processed}

logged-version :
    (s t : RuntimeSession) (dump : InteractionLogRecord → Json) (r : InteractionLogRecord) (now : ℕ)
    → append_interaction_log dump s r now ≡ ok t
    → s.version ≡ t.version
unfolding append_interaction_log
logged-version s t dump r now h = ground arith

-- What a successful record of an event leaves in the store.
module _ (st : SessionStore) (s : RuntimeSession) (held : Dict.get st s.id ≡ some s)
    (dump : InteractionLogRecord → Json) (r : InteractionLogRecord) (now : ℕ) where
  event-processed :
      is_processed s (interaction_idempotency_key r) ≡ true
      → record_interaction_event dump s.id r now st ≡ (ok r, st)
  unfolding record_interaction_event ◌>>=◌
  event-processed done = rw (get-found st s.id s held, done) refl

  event-refused :
      (e : Error)
      → is_processed s (interaction_idempotency_key r) ≡ false
      → append_interaction_log dump s r now ≡ err e
      → (record_interaction_event dump s.id r now st).0 ≡ err e
  unfolding record_interaction_event ◌>>=◌
  event-refused e free refused = rw (get-found st s.id s held, free, refused) refl

  event-logged :
      (t : RuntimeSession)
      → is_processed s (interaction_idempotency_key r) ≡ false
      → append_interaction_log dump s r now ≡ ok t
      → let u =
          bump_version
            (with_key t (interaction_idempotency_key r) "interaction" (event_detail r) now) in
        record_interaction_event dump s.id r now st ≡ (ok r, Dict.put st t.id u)
  unfolding record_interaction_event ◌>>=◌
  event-logged t free logged =
      rw
        (
          get-found st s.id s held,
          free,
          logged,
          put-current
              (with_key t (interaction_idempotency_key r) "interaction" (event_detail r) now) s st
              (rw (logged-IsFramed s dump r now t logged).same_id held)
              (logged-version s t dump r now logged),
        )
        refl

  event-session :
      (record_interaction_event dump s.id r now st).0 ≡ ok r
      → (t : RuntimeSession) × (Dict.get (record_interaction_event dump s.id r now st).1 s.id
          ≡ some t)
        × (is_processed t (interaction_idempotency_key r) ≡ true)
  event-session taken = elim (Bool-cases (is_processed s (interaction_idempotency_key r))) [
    | inl done ↦ (s, rw (event-processed done) held, done)
    | inr free ↦ elim (Result-cases (append_interaction_log dump s r now)) [
      | inl (t, logged) ↦
          let key = interaction_idempotency_key r in
          let u = bump_version (with_key t key "interaction" (event_detail r) now) in
          (
            u,
            rw
                (
                  event-logged t free logged,
                  get-put st t.id s.id u,
                  (eq_iff t.id s.id).1 (logged-IsFramed s dump r now t logged).same_id,
                )
                refl,
            rw
                (
                  get-put t.processed_idempotency_keys key key (record {
                    key = key;
                    kind = "interaction";
                    claimed_at = now;
                    detail = event_detail r;
                  }),
                  eq_refl key,
                )
                refl,
          )
      | inr (e, refused) ↦ absurd (cc (sym taken ∙ event-refused e free refused))
    ]
  ]

-- Take a session that a history of calls from an empty store has left, and an event that is recorded
-- for it without an exception. After any further history of calls, recording an event with the same
-- key, whatever else it holds, returns that event and changes nothing: the log does not grow.
pub event_logged_once :
    (before between : List Call) (s : RuntimeSession) (dump dump' : InteractionLogRecord → Json)
    (r r' : InteractionLogRecord) (now later : ℕ)
    → Dict.get (run before []) s.id ≡ some s
    → (record_interaction_event dump s.id r now (run before [])).0 ≡ ok r
    → interaction_idempotency_key r' ≡ interaction_idempotency_key r
    → let st = run between (record_interaction_event dump s.id r now (run before [])).1 in
      record_interaction_event dump' s.id r' later st ≡ (ok r', st)
event_logged_once before between s dump dump' r r' now later held taken same =
    let st = run before [] in
    let safe = (event-IsSafe dump s.id r now).at st (reachable-WellFormed before) in
    let (t, at_t, done) = event-session st s held dump r now taken in
    let (u, at_u, e) = (run-Later between _ safe.formed).sessions s.id t at_t in
    let id_u : u.id ≡ s.id = (run-Later between _ safe.formed).formed.ids s.id u at_u in
    subst
      (λ id.
        record_interaction_event dump' id r' later
          (run between (record_interaction_event dump s.id r now (run before [])).1)
        ≡ (ok r', run between (record_interaction_event dump s.id r now (run before [])).1))
      id_u
      (event-processed _ u (rw id_u at_u) dump' r' later
        (rw same (ledger-processed t u (interaction_idempotency_key r) e done)))
