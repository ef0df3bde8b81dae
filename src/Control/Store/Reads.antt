-- ===== src/Control/Store/Reads.antt =====
-- What an action that returned says of the store.
use hydra_mind.Prelude.{
  String, ◌≡◌, refl, ap, sym, Result, ok, err, Option, none, some, ok-injective, eq_refl,
}
use hydra_mind.Prelude.Exec.{continue, ◌>>=◌}
use hydra_mind.Prelude.Dict
use hydra_mind.Prelude.Dict.{get-put}
use hydra_mind.Control.Models.{RuntimeSession}
use hydra_mind.Control.Store.{
  SessionStore, Action, put, get_session, stored, found_or_missing, bump_version,
  assert_expected_version,
}

continue-ok :
    {A B : Type 0} (r : Result A) (st : SessionStore) (k : A → Action B) (b : B)
    (st' : SessionStore)
    → continue r k st ≡ (ok b, st')
    → (a : A) × (r ≡ ok a) × (k a st ≡ (ok b, st'))
continue-ok (ok a) st k b st' h = (a, refl, h)
continue-ok (err e) st k b st' h = cc h

-- Inversion of a bind that returned.
pub bind-ok :
    {A B : Type 0} (m : Action A) (k : A → Action B) (st st' : SessionStore) (b : B)
    → (m >>= k) st ≡ (ok b, st')
    → (a : A) × ((m st).0 ≡ ok a) × (k a (m st).1 ≡ (ok b, st'))
unfolding ◌>>=◌
bind-ok m k st st' b h = continue-ok (m st).0 (m st).1 k b st' h

found-ok :
    (o : Option RuntimeSession) (st : SessionStore) (s : RuntimeSession)
    → (found_or_missing o st).0 ≡ ok s
    → (o ≡ some s) × ((found_or_missing o st).1 ≡ st)
found-ok none st s h = cc h
found-ok (some u) st s h = (ap some (ok-injective h), refl)

pub get_session-ok :
    (id : String) (st : SessionStore) (s : RuntimeSession)
    → (get_session id st).0 ≡ ok s
    → (Dict.get st id ≡ some s) × ((get_session id st).1 ≡ st)
unfolding get_session
get_session-ok id st s h = found-ok (Dict.get st id) st s h

stored-ok :
    (t : RuntimeSession) (r : Result (Unit {0})) (st : SessionStore) (u : RuntimeSession)
    → (stored t r st).0 ≡ ok u
    → (Dict.get (stored t r st).1 t.id ≡ some (bump_version t)) × (u ≡ bump_version t)
stored-ok t (ok _) st u h =
    (rw (get-put st t.id t.id (bump_version t), eq_refl t.id) refl, sym (ok-injective h))
stored-ok t (err e) st u h = cc h

pub put-ok :
    (t : RuntimeSession) (st : SessionStore) (u : RuntimeSession)
    → (put t st).0 ≡ ok u
    → (Dict.get (put t st).1 t.id ≡ some (bump_version t)) × (u ≡ bump_version t)
unfolding put
put-ok t st u h = stored-ok t (assert_expected_version t (Dict.get st t.id)) st u h
