-- ===== src/Control/History/Changes.antt =====
-- What the changes of a session's own fields keep.
use hydra_mind.Prelude.{ℕ, String, ◌≡◌, refl, Bool, true, false, ok, arith, eq_iff, ◌+◌}
use hydra_mind.Prelude.Dict.{Payload, get-put}
use hydra_mind.Control.States.{SessionStatus, is_valid_session_transition}
use hydra_mind.Control.Models.{RuntimeSession}
use hydra_mind.Control.Store.Extension.{Kept, stay, move}
use hydra_mind.Control.Execution.{clear_session_execution_leases}
use hydra_mind.Control.History.Frames.{IsFramed}
use hydra_mind.Control.Lifecycle.{transition_session, update_session_metadata}
use hydra_mind.Control.Service.Ledger.{with_key, is_processed}

module _ (s : RuntimeSession) where
  pub metadata-IsFramed :
      (metadata : Payload) (do_merge : Bool) (now : ℕ)
      → IsFramed s (update_session_metadata s metadata do_merge now)
  unfolding update_session_metadata
  metadata-IsFramed metadata do_merge now = ground arith

  transition_moves :
      (to : SessionStatus) (now : ℕ) (t : RuntimeSession)
      → transition_session s to now ≡ ok t
      → (is_valid_session_transition s.status to ≡ true)
        × (t.status ≡ to)
        × (t.id ≡ s.id)
        × (t.processed_idempotency_keys ≡ s.processed_idempotency_keys)
        × (t.auto_repair_attempts_used ≡ s.auto_repair_attempts_used)
  unfolding transition_session clear_session_execution_leases
  transition_moves to now t h = ground arith

  pub transition-Kept :
      (to : SessionStatus) (now : ℕ) (t : RuntimeSession)
      → transition_session s to now ≡ ok t
      → Kept s t
  transition-Kept to now t h =
      let (valid, same_status, same_id, same_ledger, same_repairs) = transition_moves to now t h in
      record {
        same_id = same_id;
        statuses = rw same_status (move stay valid);
        ledger = λ key r held. rw same_ledger held;
        repairs = omega (arith, same_repairs);
      }

  pub with_key-Kept :
      (key kind : String) (detail : Payload) (now : ℕ)
      → is_processed s key ≡ false
      → Kept s (with_key s key kind detail now)
  with_key-Kept key kind detail now free = record {
    same_id = refl;
    statuses = stay;
    ledger = λ other r held. ground (
      arith,
      get-put s.processed_idempotency_keys key other
          (record { key = key; kind = kind; claimed_at = now; detail = detail }),
      eq_iff key other,
    );
    repairs = omega arith;
  }

  pub repaired-Kept :
      (now : ℕ)
      → Kept s (record s {
        auto_repair_attempts_used = s.auto_repair_attempts_used + 1;
        updated_at = now;
      })
  repaired-Kept now = record {
    same_id = refl;
    statuses = stay;
    ledger = λ key r held. held;
    repairs = omega arith;
  }
