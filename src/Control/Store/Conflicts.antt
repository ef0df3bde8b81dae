-- ===== src/Control/Store/Conflicts.antt =====
-- Optimistic concurrency: a write with a version that is no longer the stored one is refused.
use hydra_mind.Prelude.{
  ◌≡◌, refl, false, none, some, ok, err, arith, store_conflict, eq_iff, ==_iff, ◌==◌, String,
  str_eq,
}
use hydra_mind.Prelude.Dict
use hydra_mind.Prelude.Dict.{get-put}
use hydra_mind.Control.Models.{RuntimeSession}
use hydra_mind.Control.Store.{SessionStore, put, bump_version}

pub put-current :
    (s c : RuntimeSession) (st : SessionStore)
    → Dict.get st s.id ≡ some c
    → c.version ≡ s.version
    → put s st ≡ (ok (bump_version s), Dict.put st s.id (bump_version s))
unfolding put
put-current s c st h v = rw (h, put) (rw ((==_iff c.version s.version).1 v))

pub put-stale :
    (s c : RuntimeSession) (st : SessionStore)
    → Dict.get st s.id ≡ some c
    → (c.version == s.version) ≡ false
    → put s st ≡ (err store_conflict, st)
unfolding put
put-stale s c st h v = rw (h, put) (rw v)

pub put-new :
    (s : RuntimeSession) (st : SessionStore)
    → Dict.get st s.id ≡ none
    → s.version ≡ 0
    → put s st ≡ (ok (bump_version s), Dict.put st s.id (bump_version s))
unfolding put
put-new s st h v = rw (h, put) (rw ((==_iff s.version 0).1 v))

-- Of two writes made from one fetched version the first succeeds: what it returns, the written session
-- with the next version, is stored under its id, and under every other id there is what was there.
-- The second raises a conflict and changes nothing.
pub second_write_conflicts :
    (st : SessionStore) (s a b : RuntimeSession)
    → Dict.get st s.id ≡ some s
    → a.id ≡ s.id
    → b.id ≡ s.id
    → a.version ≡ s.version
    → b.version ≡ s.version
    → ((put a st).0 ≡ ok (bump_version a))
      × (Dict.get (put a st).1 s.id ≡ some (bump_version a))
      × ((k : String) → str_eq s.id k ≡ false → Dict.get (put a st).1 k ≡ Dict.get st k)
      × (put b (put a st).1 ≡ (err store_conflict, (put a st).1))
second_write_conflicts st s a b held ia ib va vb =
    let first : put a st ≡ (ok (bump_version a), Dict.put st a.id (bump_version a)) =
      put-current a s st (rw ia held) (cc) in
    let now_stored : Dict.get (Dict.put st a.id (bump_version a)) b.id ≡ some (bump_version a) =
      rw (get-put st a.id b.id (bump_version a), (eq_iff a.id b.id).1 (cc)) refl in
    rw first (
      refl,
      rw (get-put st a.id s.id (bump_version a), (eq_iff a.id s.id).1 ia) refl,
      (λ k other. rw (get-put st a.id k (bump_version a), ia, other) refl),
      put-stale b (bump_version a) (Dict.put st a.id (bump_version a)) now_stored (ground arith),
    )
