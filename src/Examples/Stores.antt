-- ===== src/Examples/Stores.antt =====
-- Histories of calls, the ledger and the store.
use hydra_mind.Prelude.{
  String, str_eq, pos, ◌+◌, ◌≡◌, refl, true, false, some, [], ◌∷◌, ok, err, store_conflict, List,
  arith,
}
use Prim.Native.Nat.{min}
use hydra_mind.Prelude.Exec.{◌>>=◌}
use hydra_mind.Prelude.Dict
use hydra_mind.Control.States.{SessionStatus}
use hydra_mind.Control.Models.{RuntimeSession}
use hydra_mind.Control.Store.{get_session, put, bump_version}
use hydra_mind.Control.Store.Extension.{Extends}
use hydra_mind.Control.Store.Conflicts.{second_write_conflicts}
use hydra_mind.Control.History.Calls.{Call, run}
use hydra_mind.Control.History.Permanent.{history-Extends, terminal_is_final}
use hydra_mind.Control.History.Once.{claim_succeeds_once, reserve_many, reservations_fill_budget}
use hydra_mind.Control.Service.Sessions.{create_session, session_transition}
use hydra_mind.Control.Service.Ledger.{claim_idempotency_key}
use hydra_mind.Control.Lifecycle.{transition_session}
use hydra_mind.Examples.Data.{created, empty_blueprint}

abbrev pub creation : List Call
creation = Call.create empty_blueprint [] [] "s1" 0 ∷ []

abbrev cancellation : List Call
cancellation =
    Call.create empty_blueprint [] [] "s1" 0 ∷ Call.transition "s1" SessionStatus.cancelled 1 ∷ []

abbrev pub later_calls : List Call
later_calls = Call.transition "s1" SessionStatus.running 2 ∷ Call.reserve "s1" (pos 3) 3 ∷ []

abbrev cancelled : RuntimeSession
cancelled = record created { status = SessionStatus.cancelled; version = 2; updated_at = 1 }

pub creation_stores : Dict.get (run creation []) "s1" ≡ some created
unfolding run Dict.get create_session put Dict.put
creation_stores = refl

cancellation_stores : Dict.get (run cancellation []) "s1" ≡ some cancelled
unfolding run Dict.get session_transition ◌>>=◌ get_session create_session put Dict.put
    transition_session
cancellation_stores = refl

history-Extends_example :
    (t : RuntimeSession) × (Dict.get (run later_calls (run creation [])) "s1" ≡ some t)
    × Extends created t
history-Extends_example = history-Extends creation later_calls "s1" created creation_stores

terminal_is_final_example :
    (t : RuntimeSession) × (Dict.get (run later_calls (run cancellation [])) "s1" ≡ some t)
    × (t.status ≡ SessionStatus.cancelled)
terminal_is_final_example =
    terminal_is_final cancellation later_calls "s1" cancelled cancellation_stores refl

claim_works : (claim_idempotency_key "s1" "pay" "effect" [] 5 (run creation [])).0 ≡ ok true
unfolding claim_idempotency_key ◌>>=◌ get_session Dict.get run create_session put Dict.put
claim_works = refl

claim_succeeds_once_example :
    (claim_idempotency_key "s1" "pay" "retry" [] 9
      (run later_calls (claim_idempotency_key "s1" "pay" "effect" [] 5 (run creation [])).1)).0
    ≡ ok false
claim_succeeds_once_example =
    claim_succeeds_once creation later_calls created "pay" "effect" "retry" [] [] 5 9
      creation_stores refl claim_works

reservations_fill_budget_example :
    (t : RuntimeSession) × (Dict.get (reserve_many 5 "s1" 3 7 (("s1", created) ∷ [])) "s1" ≡ some t)
    × (t.auto_repair_attempts_used ≡ min 3 (0 + 5))
unfolding Dict.get
reservations_fill_budget_example =
    reservations_fill_budget 5 (("s1", created) ∷ []) created 3 7 refl (omega arith)

second_write_conflicts_example :
    ((put created (("s1", created) ∷ [])).0 ≡ ok (bump_version created))
    × (Dict.get (put created (("s1", created) ∷ [])).1 "s1" ≡ some (bump_version created))
    × ((k : String)
        → str_eq "s1" k ≡ false
        → Dict.get (put created (("s1", created) ∷ [])).1 k ≡ Dict.get (("s1", created) ∷ []) k)
    × (put (record created { updated_at = 4 }) (put created (("s1", created) ∷ [])).1
        ≡ (err store_conflict, (put created (("s1", created) ∷ [])).1))
unfolding Dict.get
second_write_conflicts_example =
    second_write_conflicts (("s1", created) ∷ []) created created
      (record created { updated_at = 4 }) refl refl refl refl refl
