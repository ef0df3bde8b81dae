-- ===== src/Control/Service/Ledger.antt =====
-- `SessionService`: the repair budget and the ledger of idempotency keys.
use Prim.Native.String.{◌++◌ as str_append}
use hydra_mind.Prelude.{
  ℕ, zero, suc, ◌+◌, ℤ, pos, negsuc, String, Bool, true, false, Option, none, some, [], ◌∷◌, Json,
  str, value_error, str_eq, leb, if◌then◌else◌, raise_if,
}
use hydra_mind.Prelude.Exec.{◌>>=◌, pure, lift}
use hydra_mind.Prelude.Dict
use hydra_mind.Prelude.Dict.{Payload}
use hydra_mind.Control.Models.{RuntimeSession, IdempotencyRecord}
use hydra_mind.Control.Store.{Action, put, get_session}

-- The branch of a positive `max_attempts`.
unfoldable pub reserve_below : String → ℕ → ℕ → Action Bool
reserve_below session_id max_attempts now = do
  s ← get_session session_id
  if leb max_attempts s.auto_repair_attempts_used then pure false else do
    t ←
        put (record s {
          auto_repair_attempts_used = s.auto_repair_attempts_used + 1;
          updated_at = now;
        })
    pure true

unfoldable pub reserve_auto_repair_attempt : String → ℤ → ℕ → Action Bool
unfolding reserve_below
reserve_auto_repair_attempt session_id (pos zero) now = pure false
reserve_auto_repair_attempt session_id (pos (suc n)) now = reserve_below session_id (suc n) now
reserve_auto_repair_attempt session_id (negsuc n) now = pure false

unfoldable pub auto_repair_attempts_used : String → Action ℕ
auto_repair_attempts_used session_id = do
  s ← get_session session_id
  pure s.auto_repair_attempts_used

abbrev pub is_processed : RuntimeSession → String → Bool
is_processed s key = Dict.contains s.processed_idempotency_keys key

-- session.processed_idempotency_keys[key] = IdempotencyRecord(...)
abbrev pub with_key : RuntimeSession → String → String → Payload → ℕ → RuntimeSession
with_key s key kind detail now = record s {
  processed_idempotency_keys =
      Dict.put s.processed_idempotency_keys key
        (record { key = key; kind = kind; claimed_at = now; detail = detail });
  updated_at = now;
}

unfoldable pub claim_idempotency_key : String → String → String → Payload → ℕ → Action Bool
claim_idempotency_key session_id key kind detail now = do
  checked ← lift (raise_if (str_eq key "") value_error)
  s ← get_session session_id
  if is_processed s key then pure false else do t ← put (with_key s key kind detail now); pure true

unfoldable pub is_idempotency_key_processed : String → String → Action Bool
is_idempotency_key_processed session_id key = do
  s ← get_session session_id
  pure (is_processed s key)

-- f"tool-effect:{session_id}:{effect_fingerprint}"
unfoldable pub tool_effect_key : String → String → String
tool_effect_key session_id fingerprint =
    str_append "tool-effect:" (str_append session_id (str_append ":" fingerprint))

-- Both texts, if both are texts.
abbrev both_texts : Option Json → Option Json → Option (String × String)
both_texts (some (str a)) (some (str b)) = some (a, b)
both_texts _ _ = none

abbrev effect_of : Option IdempotencyRecord → Option (String × String)
effect_of none = none
effect_of (some r) = both_texts (Dict.get r.detail "tool_call_id") (Dict.get r.detail "content")

unfoldable pub lookup_tool_effect_result : String → String → Action (Option (String × String))
lookup_tool_effect_result session_id fingerprint = if str_eq fingerprint "" then pure none else do
  s ← get_session session_id
  pure (effect_of (Dict.get s.processed_idempotency_keys (tool_effect_key session_id fingerprint)))

unfoldable pub record_tool_effect_result : String → String → String → String → ℕ → Action (Unit {0})
record_tool_effect_result session_id fingerprint tool_call_id content now =
    if str_eq fingerprint "" then pure tt else do
      s ← get_session session_id
      if is_processed s (tool_effect_key session_id fingerprint) then pure tt else do
        t ← put (
            with_key s (tool_effect_key session_id fingerprint) "tool_effect"
              (("tool_call_id", str tool_call_id) ∷ ("content", str content) ∷ []) now)
        pure tt
