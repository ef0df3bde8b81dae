-- ===== src/Control/History/Once.antt =====
-- The ledger of idempotency keys and the repair budget over histories of calls.
use hydra_mind.Prelude.{
  ℕ, zero, suc, ◌+◌, ◌≤◌, pos, String, ◌≡◌, refl, true, false, some, List, [], ok, arith, ltb, leb,
  ltb→lt, str_eq, eq_refl, sym, Option-cases, Bool-cases, ◌∙◌, ok-injective, inl, inr,
}
use Prim.Native.Nat.{min}
use hydra_mind.Prelude.Exec.{◌>>=◌}
use hydra_mind.Prelude.Dict
use hydra_mind.Prelude.Dict.{Payload, get-put}
use hydra_mind.Control.Models.{RuntimeSession}
use hydra_mind.Control.Store.{SessionStore, get_session, bump_version}
use hydra_mind.Control.Store.Extension.{Extends}
use hydra_mind.Control.Store.Conflicts.{put-current}
use hydra_mind.Control.History.Calls.{Call, run}
use hydra_mind.Control.History.Permanent.{run-Later, reachable-WellFormed}
use hydra_mind.Control.History.SafeTurns.{claim-IsSafe}
use hydra_mind.Control.Service.Ledger.{
  claim_idempotency_key, reserve_auto_repair_attempt, reserve_below, is_processed, with_key,
}

leb_of_ltb : (a b : ℕ) → ltb a b ≡ true → leb b a ≡ false
leb_of_ltb a b h = ground arith

leb_of_not_ltb : (a b : ℕ) → ltb a b ≡ false → leb b a ≡ true
leb_of_not_ltb a b h = ground arith

pub get-found :
    (st : SessionStore) (id : String) (s : RuntimeSession)
    → Dict.get st id ≡ some s
    → get_session id st ≡ (ok s, st)
unfolding get_session
get-found st id s held = rw held refl

claim-processed :
    (st : SessionStore) (id : String) (s : RuntimeSession) (key kind : String) (detail : Payload)
    (now : ℕ)
    → Dict.get st id ≡ some s
    → str_eq key "" ≡ false
    → is_processed s key ≡ true
    → (claim_idempotency_key id key kind detail now st).0 ≡ ok false
unfolding claim_idempotency_key ◌>>=◌
claim-processed st id s key kind detail now held named done =
    rw (named, get-found st id s held, done) refl

module _ (st : SessionStore) (s : RuntimeSession) (held : Dict.get st s.id ≡ some s) where
  claim-free :
      (key kind : String) (detail : Payload) (now : ℕ)
      → str_eq key "" ≡ false
      → is_processed s key ≡ false
      → claim_idempotency_key s.id key kind detail now st
        ≡ (ok true, Dict.put st s.id (bump_version (with_key s key kind detail now)))
  unfolding claim_idempotency_key ◌>>=◌
  claim-free key kind detail now named free =
      rw
        (
          named,
          get-found st s.id s held,
          free,
          put-current (with_key s key kind detail now) s st held refl,
        )
        refl

  reserve-below :
      (n now : ℕ)
      → ltb s.auto_repair_attempts_used n ≡ true
      → reserve_below s.id n now st ≡ (
        ok true,
        Dict.put st s.id (
            bump_version (record s {
              auto_repair_attempts_used = s.auto_repair_attempts_used + 1;
              updated_at = now;
            })),
      )
  unfolding reserve_below ◌>>=◌
  reserve-below n now room =
      rw
        (
          get-found st s.id s held,
          leb_of_ltb _ _ room,
          put-current
              (record s {
                auto_repair_attempts_used = s.auto_repair_attempts_used + 1;
                updated_at = now;
              })
              s st held refl,
        )
        refl

  reserve-spent :
      (n now : ℕ)
      → ltb s.auto_repair_attempts_used n ≡ false
      → reserve_below s.id n now st ≡ (ok false, st)
  unfolding reserve_below ◌>>=◌
  reserve-spent n now full = rw (get-found st s.id s held, leb_of_not_ltb _ _ full) refl

pub ledger-processed :
    (s t : RuntimeSession) (key : String)
    → Extends s t
    → is_processed s key ≡ true
    → is_processed t key ≡ true
ledger-processed s t key e done = elim (Option-cases (Dict.get s.processed_idempotency_keys key)) [
  | inl free ↦ cc (free, done)
  | inr (r, at_r) ↦ rw (e.kept.ledger key r at_r) refl
]

claimed-session :
    (st : SessionStore) (s : RuntimeSession) (key kind : String) (detail : Payload) (now : ℕ)
    → Dict.get st s.id ≡ some s
    → str_eq key "" ≡ false
    → (claim_idempotency_key s.id key kind detail now st).0 ≡ ok true
    → (t : RuntimeSession) × (Dict.get (claim_idempotency_key s.id key kind detail now st).1 s.id
        ≡ some t)
      × (is_processed t key ≡ true)
claimed-session st s key kind detail now held named claimed =
    elim (Bool-cases (is_processed s key)) [
      | inl done ↦ cc (
          ok-injective
            (sym claimed ∙ claim-processed st s.id s key kind detail now held named done))
      | inr free ↦
          let t = bump_version (with_key s key kind detail now) in
          (
            t,
            rw
                (
                  claim-free st s held key kind detail now named free,
                  get-put st s.id s.id t,
                  eq_refl s.id,
                )
                refl,
            rw
                (
                  get-put s.processed_idempotency_keys key key
                      (record { key = key; kind = kind; claimed_at = now; detail = detail }),
                  eq_refl key,
                )
                refl,
          )
    ]

-- Take a session that a history of calls from an empty store has left, and a key that is not empty.
-- If a claim of the key succeeds, then after any further history of calls a claim of the same key
-- for the same session reports that it was claimed before.
pub claim_succeeds_once :
    (before between : List Call) (s : RuntimeSession) (key kind other : String)
    (detail detail' : Payload) (now later : ℕ)
    → Dict.get (run before []) s.id ≡ some s
    → str_eq key "" ≡ false
    → (claim_idempotency_key s.id key kind detail now (run before [])).0 ≡ ok true
    → (claim_idempotency_key s.id key other detail' later
        (run between (claim_idempotency_key s.id key kind detail now (run before [])).1)).0
      ≡ ok false
claim_succeeds_once before between s key kind other detail detail' now later held named claimed =
    let st = run before [] in
    let safe = (claim-IsSafe s.id key kind detail now).at st (reachable-WellFormed before) in
    let (t, at_t, done) = claimed-session st s key kind detail now held named claimed in
    let (u, at_u, e) = (run-Later between _ safe.formed).sessions s.id t at_t in
    claim-processed _ s.id u key other detail' later at_u named (ledger-processed t u key e done)

-- `count` reservations one after the other, with one limit.
unfoldable pub reserve_many : ℕ → String → ℕ → ℕ → SessionStore → SessionStore
reserve_many zero id max_attempts now st = st
reserve_many (suc count) id max_attempts now st =
    reserve_many count id max_attempts now
      (reserve_auto_repair_attempt id (pos max_attempts) now st).1

-- Of `count` reservations with the limit `max_attempts`, on a session whose used repairs are within
-- the limit, as many are counted as the limit leaves room for: the used repairs end at the smaller
-- one of the limit and of the repairs used before and `count` together.
pub reservations_fill_budget :
    (count : ℕ) (st : SessionStore) (s : RuntimeSession) (max_attempts now : ℕ)
    → Dict.get st s.id ≡ some s
    → s.auto_repair_attempts_used ≤ max_attempts
    → (t : RuntimeSession) × (Dict.get (reserve_many count s.id max_attempts now st) s.id ≡ some t)
      × (t.auto_repair_attempts_used ≡ min max_attempts (s.auto_repair_attempts_used + count))
unfolding reserve_many reserve_auto_repair_attempt ◌>>=◌
reservations_fill_budget zero st s n now held within = (s, held, omega arith)
reservations_fill_budget (suc count) st s zero now held within =
    let (t, at_t, used) = reservations_fill_budget count st s zero now held within in
    (t, at_t, omega arith)
reservations_fill_budget (suc count) st s (suc n) now held within =
    elim (Bool-cases (ltb s.auto_repair_attempts_used (suc n))) [
      | inl room ↦
          let u = bump_version (record s {
            auto_repair_attempts_used = s.auto_repair_attempts_used + 1;
            updated_at = now;
          }) in
          let (t, at_t, used) =
            reservations_fill_budget count (Dict.put st s.id u) u (suc n) now
              (rw (get-put st s.id s.id u, eq_refl s.id) refl)
              (omega (arith, ltb→lt s.auto_repair_attempts_used (suc n) room)) in
          (t, rw (reserve-below st s held (suc n) now room) at_t, omega arith)
      | inr full ↦
          let (t, at_t, used) = reservations_fill_budget count st s (suc n) now held within in
          (t, rw (reserve-spent st s held (suc n) now full) at_t, ground arith)
    ]
