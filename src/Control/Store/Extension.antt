-- ===== src/Control/Store/Extension.antt =====
-- What no action on the store undoes, and the rules by which an action is shown to respect it.
use hydra_mind.Prelude.{
  ◌≤◌, String, ◌≡◌, refl, true, none, some, arith, inl, inr, str_eq, eq_iff, Option-cases,
  Bool-cases, sym, ap, ◌∙◌, ◌==◌, ==_iff, ◌⊎◌,
}
use hydra_mind.Prelude.Dict
use hydra_mind.Prelude.Dict.{get-put}
use hydra_mind.Control.States.{SessionStatus, is_valid_session_transition}
use hydra_mind.Control.Models.{RuntimeSession, IdempotencyRecord}
use hydra_mind.Control.Store.Conflicts.{put-current, put-stale, put-new}
use hydra_mind.Control.Store.{SessionStore, put, bump_version}

-- The moves of the transition table, any number of them.
pub data StatusPath (a : SessionStatus) : SessionStatus → Type 0 where
  stay : StatusPath a a
  move :
      {b c : SessionStatus}
      → StatusPath a b
      → is_valid_session_transition b c ≡ true
      → StatusPath a c

pub StatusPath-trans : {a b c : SessionStatus} → StatusPath a b → StatusPath b c → StatusPath a c
StatusPath-trans p stay = p
StatusPath-trans p (move q h) = move (StatusPath-trans p q) h

-- What a later state of a session keeps of an earlier one, its version aside.
pub record Kept (s t : RuntimeSession) : Type 0 where
  pub same_id : t.id ≡ s.id
  pub statuses : StatusPath s.status t.status
  pub ledger :
      (key : String) (r : IdempotencyRecord)
      → Dict.get s.processed_idempotency_keys key ≡ some r
      → Dict.get t.processed_idempotency_keys key ≡ some r
  pub repairs : s.auto_repair_attempts_used ≤ t.auto_repair_attempts_used

pub record Extends (s t : RuntimeSession) : Type 0 where
  pub kept : Kept s t
  pub versions : s.version ≤ t.version

pub Kept-refl : (s : RuntimeSession) → Kept s s
Kept-refl s = record {
  same_id = refl;
  statuses = stay;
  ledger = λ key r h. h;
  repairs = omega arith;
}

pub Extends-refl : (s : RuntimeSession) → Extends s s
Extends-refl s = record { kept = Kept-refl s; versions = omega arith }

pub Kept-trans : {s t u : RuntimeSession} → Kept s t → Kept t u → Kept s u
Kept-trans p q = record {
  same_id = cc (p.same_id, q.same_id);
  statuses = StatusPath-trans p.statuses q.statuses;
  ledger = λ key r h. q.ledger key r (p.ledger key r h);
  repairs = omega (arith, p.repairs, q.repairs);
}

pub Extends-trans : {s t u : RuntimeSession} → Extends s t → Extends t u → Extends s u
Extends-trans p q = record {
  kept = Kept-trans p.kept q.kept;
  versions = omega (arith, p.versions, q.versions);
}

-- Every session is stored under its id, with a version that a write has raised.
pub record WellFormed (st : SessionStore) : Type 0 where
  pub ids : (k : String) (s : RuntimeSession) → Dict.get st k ≡ some s → s.id ≡ k
  pub raised : (k : String) (s : RuntimeSession) → Dict.get st k ≡ some s → 1 ≤ s.version

-- The later store is well formed too, and holds an extension of every session of the earlier one.
pub record Later (st st' : SessionStore) : Type 0 where
  pub formed : WellFormed st'
  pub sessions :
      (k : String) (s : RuntimeSession)
      → Dict.get st k ≡ some s
      → (t : RuntimeSession) × (Dict.get st' k ≡ some t) × Extends s t

pub Later-refl : {st : SessionStore} → WellFormed st → Later st st
Later-refl w = record { formed = w; sessions = λ k s h. (s, h, Extends-refl s) }

pub Later-trans : {a b c : SessionStore} → Later a b → Later b c → Later a c
Later-trans p q = record {
  formed = q.formed;
  sessions = λ k s h.
      let (t, at_t, e) = p.sessions k s h in
      let (u, at_u, f) = q.sessions k t at_t in (u, at_u, Extends-trans e f);
}

bump-Extends :
    (s t : RuntimeSession) → Kept s t → t.version ≡ s.version → Extends s (bump_version t)
bump-Extends s t k v = record {
  kept = record {
    same_id = k.same_id;
    statuses = k.statuses;
    ledger = k.ledger;
    repairs = k.repairs;
  };
  versions = omega arith;
}

stored_cases :
    (st : SessionStore) (t u : RuntimeSession) (j : String)
    → Dict.get (Dict.put st t.id t) j ≡ some u
    → ((t.id ≡ j) × (u ≡ t)) ⊎ (Dict.get st j ≡ some u)
stored_cases st t u j h = ground (arith, get-put st t.id j t, eq_iff t.id j)

stored-WellFormed :
    (st : SessionStore) (t : RuntimeSession)
    → WellFormed st
    → WellFormed (Dict.put st t.id (bump_version t))
stored-WellFormed st t w = record {
  ids = λ j u h. elim (stored_cases st (bump_version t) u j h) [
    | inl (same, e) ↦ rw e same
    | inr old ↦ w.ids j u old
  ];
  raised = λ j u h. elim (stored_cases st (bump_version t) u j h) [
    | inl (same, e) ↦ rw e (omega arith)
    | inr old ↦ w.raised j u old
  ];
}

-- A write of a session that keeps the stored one.
stored-Later :
    (s t : RuntimeSession) (st : SessionStore)
    → WellFormed st
    → Dict.get st s.id ≡ some s
    → Kept s t
    → t.version ≡ s.version
    → Later st (Dict.put st t.id (bump_version t))
stored-Later s t st w held k v = record {
  formed = stored-WellFormed st t w;
  sessions = λ j u h. elim (Bool-cases (str_eq t.id j)) [
    | inl same ↦
        let at_j : j ≡ s.id = sym ((eq_iff t.id j).0 same) ∙ k.same_id in
        let both : some u ≡ some s = sym h ∙ ap (Dict.get st) at_j ∙ held in
        let e : u ≡ s = cc both in
        (
          bump_version t,
          rw (get-put st t.id j (bump_version t), same) refl,
          rw e (bump-Extends s t k v),
        )
    | inr other ↦ (u, rw (get-put st t.id j (bump_version t), other) h, Extends-refl u)
  ];
}

pub put-Later :
    (s t : RuntimeSession) (st : SessionStore)
    → WellFormed st
    → Dict.get st s.id ≡ some s
    → Kept s t
    → Later st (put t st).1
put-Later s t st w held k = elim (Bool-cases (s.version == t.version)) [
  | inl same ↦
      rw (put-current t s st (rw k.same_id held) ((==_iff s.version t.version).0 same))
        (stored-Later s t st w held k (sym ((==_iff s.version t.version).0 same)))
  | inr stale ↦ rw (put-stale t s st (rw k.same_id held) stale) (Later-refl w)
]

-- A session that is written where none is stored.
pub put_new-Later :
    (t : RuntimeSession) (st : SessionStore) → WellFormed st → t.version ≡ 0 → Later st (put t st).1
put_new-Later t st w v = elim (Option-cases (Dict.get st t.id)) [
  | inl free ↦ rw (put-new t st free v) (record {
    formed = stored-WellFormed st t w;
    sessions = λ j u h. elim (Bool-cases (str_eq t.id j)) [
      | inl same ↦
          let clash : none ≡ some u = sym free ∙ ap (Dict.get st) ((eq_iff t.id j).0 same) ∙ h in
          absurd (cc clash)
      | inr other ↦ (u, rw (get-put st t.id j (bump_version t), other) h, Extends-refl u)
    ];
  })
  | inr (s, held) ↦ rw (put-stale t s st held (ground (arith, w.raised t.id s held))) (Later-refl w)
]
