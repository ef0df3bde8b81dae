-- ===== src/Control/Store/Rules.antt =====
-- The rules by which an action of the service is shown to keep what `Extension` says.
use hydra_mind.Prelude.{
  String, Option, none, some, ◌≡◌, refl, ap, ◌∙◌, Bool, true, false, Result, ok, err, inl, inr,
  Option-cases, if◌then◌else◌, sym, eq_refl, ok-injective,
}
use hydra_mind.Prelude.Exec.{pure, lift, continue, ◌>>=◌}
use hydra_mind.Prelude.Dict
use hydra_mind.Prelude.Dict.{get-put}
use hydra_mind.Control.Models.{RuntimeSession}
use hydra_mind.Control.Store.{
  SessionStore, Action, put, get_session, stored, found_or_missing, bump_version,
  assert_expected_version,
}
use hydra_mind.Control.Store.Extension.{Kept, WellFormed, Later, Later-refl, Later-trans, put-Later}

-- An action that keeps every well-formed store, wherever it starts.
pub record IsSafe {A : Type 0} (m : Action A) : Type 0 where
  pub at : (st : SessionStore) → WellFormed st → Later st (m st).1

-- The same from a store in which `s` has just been read.
pub record IsSafeFrom {A : Type 0} (s : RuntimeSession) (m : Action A) : Type 0 where
  pub at : (st : SessionStore) → WellFormed st → Dict.get st s.id ≡ some s → Later st (m st).1

-- An action that writes nothing.
pub record IsQuiet {A : Type 0} (m : Action A) : Type 0 where
  pub at : (st : SessionStore) → (m st).1 ≡ st

module _ {A : Type 0} where
  pub IsQuiet-pure : (a : A) → IsQuiet (pure a)
  unfolding ◌>>=◌
  IsQuiet-pure a = record { at = λ st. refl }

  pub IsQuiet-lift : (r : Result A) → IsQuiet (lift r)
  unfolding ◌>>=◌
  IsQuiet-lift r = record { at = λ st. refl }

  pub IsSafeFrom-quiet : (s : RuntimeSession) (m : Action A) → IsQuiet m → IsSafeFrom s m
  IsSafeFrom-quiet s m q = record { at = λ st w held. rw (q.at st) (Later-refl w) }

  pub IsSafeFrom-if :
      (s : RuntimeSession) (b : Bool) (m n : Action A)
      → (b ≡ true → IsSafeFrom s m)
      → (b ≡ false → IsSafeFrom s n)
      → IsSafeFrom s (if b then m else n)
  IsSafeFrom-if s true m n p q = p refl
  IsSafeFrom-if s false m n p q = q refl

  pub IsSafe-if : (b : Bool) (m n : Action A) → IsSafe m → IsSafe n → IsSafe (if b then m else n)
  IsSafe-if true m n p q = p
  IsSafe-if false m n p q = q

  pub IsSafe-quiet : (m : Action A) → IsQuiet m → IsSafe m
  IsSafe-quiet m q = record { at = λ st w. rw (q.at st) (Later-refl w) }

module _ {A B : Type 0} where
  continue_quiet :
      (r : Result A) (k : A → Action B) (st : SessionStore)
      → ((a : A) → IsQuiet (k a))
      → (continue r k st).1 ≡ st
  continue_quiet (ok a) k st q = (q a).at st
  continue_quiet (err e) k st q = refl

  pub IsQuiet-bind :
      (m : Action A) (k : A → Action B) → IsQuiet m → ((a : A) → IsQuiet (k a)) → IsQuiet (m >>= k)
  unfolding ◌>>=◌
  IsQuiet-bind m k p q = record { at = λ st. continue_quiet (m st).0 k (m st).1 q ∙ p.at st }

  pub IsSafe-lift :
      (r : Result A) (k : A → Action B) → ((a : A) → IsSafe (k a)) → IsSafe (lift r >>= k)
  unfolding ◌>>=◌
  IsSafe-lift (ok a) k p = p a
  IsSafe-lift (err e) k p = record { at = λ st w. Later-refl w }

  pub IsSafeFrom-lift :
      (s : RuntimeSession) (r : Result A) (k : A → Action B)
      → ((a : A) → r ≡ ok a → IsSafeFrom s (k a))
      → IsSafeFrom s (lift r >>= k)
  unfolding ◌>>=◌
  IsSafeFrom-lift s (ok a) k p = p a refl
  IsSafeFrom-lift s (err e) k p = record { at = λ st w held. Later-refl w }

continue_safe :
    {A B : Type 0} (r : Result A) (k : A → Action B) (st : SessionStore)
    → ((a : A) → IsSafe (k a))
    → WellFormed st
    → Later st (continue r k st).1
continue_safe (ok a) k st p w = (p a).at st w
continue_safe (err e) k st p w = Later-refl w

pub IsSafe-bind :
    {A B : Type 0} (m : Action A) (k : A → Action B)
    → IsSafe m
    → ((a : A) → IsSafe (k a))
    → IsSafe (m >>= k)
unfolding ◌>>=◌
IsSafe-bind m k p q = record {
  at = λ st w. let l = p.at st w in Later-trans l (continue_safe (m st).0 k (m st).1 q l.formed);
}

pub IsSafe-get :
    {A : Type 0} (session_id : String) (k : RuntimeSession → Action A)
    → ((s : RuntimeSession) → IsSafeFrom s (k s))
    → IsSafe (get_session session_id >>= k)
unfolding ◌>>=◌ get_session
IsSafe-get session_id k p = record {
  at = λ st w. elim (Option-cases (Dict.get st session_id)) [
    | inl free ↦ rw (free, get_session) (Later-refl w)
    | inr (s, held) ↦
        rw (held, get_session) ((p s).at st w (ap (Dict.get st) (w.ids session_id s held) ∙ held))
  ];
}

pub IsSafeFrom-put :
    {A : Type 0} (s t : RuntimeSession) (k : RuntimeSession → Action A)
    → Kept s t
    → ((u : RuntimeSession) → IsQuiet (k u))
    → IsSafeFrom s (put t >>= k)
unfolding ◌>>=◌
IsSafeFrom-put s t k kept q = record {
  at =
      λ st w held. rw (continue_quiet (put t st).0 k (put t st).1 q) (put-Later s t st w held kept);
}

pub IsSafeFrom-put_last : (s t : RuntimeSession) → Kept s t → IsSafeFrom s (put t)
IsSafeFrom-put_last s t kept = record { at = λ st w held. put-Later s t st w held kept }

pub ruleset safe_rules = (
  IsQuiet-pure, IsQuiet-lift, IsQuiet-bind, IsSafeFrom-quiet, IsSafeFrom-if, IsSafe-if,
  IsSafe-quiet, IsSafe-lift, IsSafeFrom-lift, IsSafe-get, IsSafeFrom-put, IsSafeFrom-put_last,
)

-- An action whose result is the session as it is stored.
pub record IsHanding (m : Action RuntimeSession) : Type 0 where
  pub at :
      (st : SessionStore) (s : RuntimeSession) → (m st).0 ≡ ok s → Dict.get (m st).1 s.id ≡ some s

stored_hands :
    (t : RuntimeSession) (r : Result (Unit {0})) (st : SessionStore) (s : RuntimeSession)
    → (stored t r st).0 ≡ ok s
    → Dict.get (stored t r st).1 s.id ≡ some s
stored_hands t (ok _) st s h =
    rw (sym (ok-injective h), get-put st t.id t.id (bump_version t), eq_refl t.id) refl
stored_hands t (err e) st s h = cc

pub IsHanding-put : (t : RuntimeSession) → IsHanding (put t)
unfolding put
IsHanding-put t = record {
  at = λ st s h. stored_hands t (assert_expected_version t (Dict.get st t.id)) st s h;
}

found_hands :
    (o : Option RuntimeSession) (k : RuntimeSession → Action RuntimeSession)
    → ((s : RuntimeSession) → IsHanding (k s))
    → (st : SessionStore) (s : RuntimeSession)
    → (continue (found_or_missing o st).0 k (found_or_missing o st).1).0 ≡ ok s
    → Dict.get (continue (found_or_missing o st).0 k (found_or_missing o st).1).1 s.id ≡ some s
found_hands none k p st s h = cc
found_hands (some u) k p st s h = (p u).at st s h

pub IsHanding-get :
    (session_id : String) (k : RuntimeSession → Action RuntimeSession)
    → ((s : RuntimeSession) → IsHanding (k s))
    → IsHanding (get_session session_id >>= k)
unfolding ◌>>=◌ get_session
IsHanding-get session_id k p = record {
  at = λ st s h. found_hands (Dict.get st session_id) k p st s h;
}

pub IsHanding-lift :
    {A : Type 0} (r : Result A) (k : A → Action RuntimeSession)
    → ((a : A) → IsHanding (k a))
    → IsHanding (lift r >>= k)
unfolding ◌>>=◌
IsHanding-lift (ok a) k p = p a
IsHanding-lift (err e) k p = record { at = λ st s h. cc }

continue-Later :
    {A : Type 0} (r : Result RuntimeSession) (k : RuntimeSession → Action A) (a b : SessionStore)
    → Later a b
    → ((s : RuntimeSession) → r ≡ ok s → Dict.get b s.id ≡ some s)
    → ((s : RuntimeSession) → IsSafeFrom s (k s))
    → Later a (continue r k b).1
continue-Later (ok s) k a b l held p = Later-trans l ((p s).at b l.formed (held s refl))
continue-Later (err e) k a b l held p = l

pub IsSafe-then :
    {A : Type 0} (m : Action RuntimeSession) (k : RuntimeSession → Action A)
    → IsSafe m
    → IsHanding m
    → ((s : RuntimeSession) → IsSafeFrom s (k s))
    → IsSafe (m >>= k)
unfolding ◌>>=◌
IsSafe-then m k safe handing p = record {
  at = λ st w. continue-Later (m st).0 k st (m st).1 (safe.at st w) (handing.at st) p;
}

pub IsQuiet-get : (session_id : String) → IsQuiet (get_session session_id)
unfolding get_session
IsQuiet-get session_id = record { at = λ st. found_quiet (Dict.get st session_id) st }
  where
    found_quiet : (o : Option RuntimeSession) (st : SessionStore) → (found_or_missing o st).1 ≡ st
    found_quiet none st = refl
    found_quiet (some s) st = refl
