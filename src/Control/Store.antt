-- ===== src/Control/Store.antt =====
-- control/store.py: the in-memory session store, with the version check of a write. The actions of
-- the session service run on it: what was put before an exception stays.

pub mod Conflicts
pub mod Extension
pub mod Rules
pub mod Reads
use hydra_mind.Prelude.{
  ℕ, zero, suc, ◌+◌, String, Bool, Option, none, some, List, [], Result, ok, err, Error,
  store_conflict, session_not_found, guard, ◌==◌, ◌>>◌,
}
use hydra_mind.Prelude.Exec.{Exec}
use hydra_mind.Prelude.Dict
use hydra_mind.Prelude.Dict.{Dict}
use hydra_mind.Control.Models.{RuntimeSession}

abbrev pub SessionStore : Type 0
SessionStore = Dict RuntimeSession

-- `_assert_expected_version`
unfoldable pub assert_expected_version : RuntimeSession → Option RuntimeSession → Result (Unit {0})
assert_expected_version s none = guard (s.version == 0) store_conflict
assert_expected_version s (some current) = guard (current.version == s.version) store_conflict

abbrev pub bump_version : RuntimeSession → RuntimeSession
bump_version s = record s { version = s.version + 1 }

-- An action on the store: a result or an exception, and the store after it.
abbrev pub Action : Type 0 → Type 0
Action A = Exec SessionStore A

abbrev stored : RuntimeSession → Result (Unit {0}) → Action RuntimeSession
stored s (ok _) st = (ok (bump_version s), Dict.put st s.id (bump_version s))
stored s (err e) st = (err e, st)

-- `put`: the caller's session has its version raised too, so it is the result.
unfoldable pub put : RuntimeSession → Action RuntimeSession
unfolding assert_expected_version
put s st = stored s (assert_expected_version s (Dict.get st s.id)) st

abbrev found_or_missing : Option RuntimeSession → Action RuntimeSession
found_or_missing none st = (err session_not_found, st)
found_or_missing (some s) st = (ok s, st)

-- `SessionRepository.get_required`
unfoldable pub get_session : String → Action RuntimeSession
get_session session_id st = found_or_missing (Dict.get st session_id) st

unfoldable pub delete : String → SessionStore → SessionStore
delete session_id st = Dict.remove st session_id

abbrev pub all_ids : SessionStore → List String
all_ids = Dict.keys
