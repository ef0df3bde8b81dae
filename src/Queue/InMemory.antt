-- ===== src/Queue/InMemory.antt =====
-- queue/in_memory.py: the adapter of one process, for `maxsize=0`, where a `put` never waits. Times
-- are microseconds of the loop's clock. A handle that the source draws at random is an argument:
-- `new_handle h` is the one drawn for the redelivery of the message whose handle is `h`.
pub mod Tally
pub mod Redelivery
pub mod Calls
pub mod Rounds
pub mod Refinement
pub mod Runs
pub mod Attempts
pub mod Order
use hydra_mind.Prelude.{
  ℕ, zero, suc, ◌+◌, ◌-◌, ℤ, pos, negsuc, String, Bool, true, false, not, ◌&&◌, Option, none, some,
  List, [], ◌∷◌, ◌++◌, Result, ok, err, value_error, runtime_error, ◌>>=◌, ◌>>◌, raise_if,
  if◌then◌else◌, ltb, leb, length, keep, Json, num, str,
}
use hydra_mind.Prelude.Dict
use hydra_mind.Prelude.Dict.{Dict, Payload}
use hydra_mind.Queue.Contracts.{QueueMessage}

pub record InFlightMessage : Type 0 where
  pub message : QueueMessage
  pub expires_at : Option ℕ

pub record InMemoryQueueAdapter : Type 0 where
  pub queue : List QueueMessage
  pub in_flight : Dict InFlightMessage
  pub dead_letters : List QueueMessage
  pub visibility_timeout : Option ℕ
  pub max_delivery_attempts : Option ℕ
  pub closed : Bool

-- `if x is not None and x <= 0: raise ValueError`
unfoldable pub positive_or_none : Option ℤ → Result (Option ℕ)
positive_or_none none = ok none
positive_or_none (some (pos zero)) = err value_error
positive_or_none (some (pos (suc n))) = ok (some (suc n))
positive_or_none (some (negsuc n)) = err value_error

-- `InMemoryQueueAdapter(...)`
unfoldable pub new_adapter : Option ℤ → Option ℤ → Result InMemoryQueueAdapter
unfolding positive_or_none
new_adapter visibility_timeout max_delivery_attempts = do
  timeout ← positive_or_none visibility_timeout
  attempts ← positive_or_none max_delivery_attempts
  ok (record {
    queue = [];
    in_flight = [];
    dead_letters = [];
    visibility_timeout = timeout;
    max_delivery_attempts = attempts;
    closed = false;
  })

abbrev pub reject_if_closed : InMemoryQueueAdapter → Result (Unit {0})
reject_if_closed q = raise_if q.closed runtime_error

abbrev pub put_message : InMemoryQueueAdapter → QueueMessage → InMemoryQueueAdapter
put_message q m = record q { queue = q.queue ++ m ∷ [] }

-- `metadata or {}`
abbrev or_empty : Option Payload → Payload
or_empty none = []
or_empty (some p) = p

abbrev pub new_message : String → Option Payload → String → ℕ → QueueMessage
new_message session_id metadata handle now = record {
  session_id = session_id;
  enqueued_at = now;
  attempt = 0;
  metadata = or_empty metadata;
  handle = handle;
}

unfoldable pub enqueue :
    InMemoryQueueAdapter
    → String
    → Option Payload
    → String
    → ℕ
    → Result (QueueMessage × InMemoryQueueAdapter)
enqueue q session_id metadata handle now = do
  reject_if_closed q
  let m = new_message session_id metadata handle now
  ok (m, put_message q m)

-- self._max_delivery_attempts is not None and attempt >= self._max_delivery_attempts
abbrev pub reaches : Option ℕ → ℕ → Bool
reaches none attempt = false
reaches (some most) attempt = leb most attempt

abbrev pub should_dead_letter : InMemoryQueueAdapter → ℕ → Bool
should_dead_letter q attempt = reaches q.max_delivery_attempts attempt

-- The first `metadata.update`.
unfoldable pub delivery_metadata : QueueMessage → String → Payload
delivery_metadata m reason = Dict.merge m.metadata (
    ("last_delivery_reason", str reason)
    ∷ ("last_delivery_handle", str m.handle)
    ∷ ("last_delivery_attempt", num (pos m.attempt))
    ∷ ("delivery_attempt", num (pos (suc m.attempt)))
    ∷ [])

-- The second one, for a dead letter.
unfoldable pub dead_letter_metadata : QueueMessage → String → Payload → Payload
dead_letter_metadata m reason metadata = Dict.merge metadata (
    ("dead_letter_reason", str "max_delivery_attempts_exceeded")
    ∷ ("dead_letter_source", str reason)
    ∷ ("dead_letter_handle", str m.handle)
    ∷ ("dead_letter_attempt", num (pos (suc m.attempt)))
    ∷ [])

-- `next_delivery`
unfoldable pub next_delivery : InMemoryQueueAdapter → QueueMessage → String → String → QueueMessage
unfolding delivery_metadata dead_letter_metadata
next_delivery q m reason handle =
    let metadata = delivery_metadata m reason in
    record m {
      attempt = suc m.attempt;
      handle = handle;
      metadata =
          if should_dead_letter q (suc m.attempt)
          then dead_letter_metadata m reason metadata
          else metadata;
    }

unfoldable pub retry_or_dead_letter :
    InMemoryQueueAdapter → QueueMessage → String → String → InMemoryQueueAdapter
unfolding next_delivery
retry_or_dead_letter q m reason handle =
    let next = next_delivery q m reason handle in
    if should_dead_letter q (suc m.attempt)
    then record q { dead_letters = q.dead_letters ++ next ∷ [] }
    else put_message q next

-- self._in_flight.pop(handle, None)
abbrev pub pop_in_flight : InMemoryQueueAdapter → String → InMemoryQueueAdapter
pop_in_flight q handle = record q { in_flight = Dict.remove q.in_flight handle }

unfoldable pub ack : InMemoryQueueAdapter → QueueMessage → InMemoryQueueAdapter
ack q m = pop_in_flight q m.handle

unfoldable pub nack : InMemoryQueueAdapter → QueueMessage → Bool → String → InMemoryQueueAdapter
unfolding retry_or_dead_letter
nack q m retry handle = elim (Dict.get q.in_flight m.handle) [
  | none ↦ q
  | some held ↦
      let popped = pop_in_flight q m.handle in
      if retry && not q.closed then retry_or_dead_letter popped m "nack" handle else popped
]

abbrev pub expiry : Option ℕ → ℕ → Option ℕ
expiry none now = none
expiry (some timeout) now = some (now + timeout)

unfoldable pub track_in_flight : InMemoryQueueAdapter → QueueMessage → ℕ → InMemoryQueueAdapter
track_in_flight q m now = record q {
  in_flight =
      Dict.put q.in_flight m.handle
        (record { message = m; expires_at = expiry q.visibility_timeout now });
}

-- record.expires_at is not None and record.expires_at <= now
abbrev pub is_expired : ℕ → Option ℕ → Bool
is_expired now none = false
is_expired now (some e) = leb e now

abbrev pub expired_at : ℕ → String × InFlightMessage → Bool
expired_at now entry = is_expired now entry.1.expires_at

-- One round of the loop of `_redeliver_expired`.
unfoldable pub redeliver_one :
    InMemoryQueueAdapter → String → InFlightMessage → String → InMemoryQueueAdapter
unfolding retry_or_dead_letter
redeliver_one q handle held fresh = elim (Dict.get q.in_flight handle) [
  | none ↦ q
  | some _ ↦
      let popped = pop_in_flight q handle in
      if not q.closed
      then retry_or_dead_letter popped held.message "visibility_timeout" fresh
      else popped
]

unfoldable pub redeliver_all :
    (String → String)
    → List (String × InFlightMessage)
    → InMemoryQueueAdapter
    → InMemoryQueueAdapter
unfolding redeliver_one
redeliver_all new_handle [] q = q
redeliver_all new_handle ((handle, held) ∷ rest) q =
    redeliver_all new_handle rest (redeliver_one q handle held (new_handle handle))

unfoldable pub redeliver_expired :
    InMemoryQueueAdapter → (String → String) → ℕ → InMemoryQueueAdapter
unfolding redeliver_all
redeliver_expired q new_handle now = elim q.visibility_timeout [
  | none ↦ q
  | some _ ↦ redeliver_all new_handle (keep (expired_at now) q.in_flight) q
]

abbrev lesser : Option ℕ → Option ℕ → Option ℕ
lesser none b = b
lesser (some a) none = some a
lesser (some a) (some b) = some (if ltb b a then b else a)

unfoldable pub next_expiry : Dict InFlightMessage → Option ℕ
next_expiry [] = none
next_expiry ((h, held) ∷ d) = lesser held.expires_at (next_expiry d)

-- max(0.0, t - now)
abbrev time_left : Option ℕ → ℕ → Option ℕ
time_left none now = none
time_left (some t) now = some (t - now)

unfoldable pub dequeue_wait_timeout : InMemoryQueueAdapter → Option ℕ → ℕ → Option ℕ
unfolding next_expiry
dequeue_wait_timeout q deadline now =
    lesser (time_left deadline now) (time_left (next_expiry q.in_flight) now)

-- What a round of the loop of `dequeue` ends in: a message, the timeout (`return None`), the next
-- round (`continue`), or a wait of at most so long for a message.
pub data Round : Type 0 where
  delivered : QueueMessage → Round
  timed_out : Round
  continued : Round
  waiting : Option ℕ → Round

-- The readings of the clock in one round, in the order of the code.
pub record Readings : Type 0 where
  pub at_redelivery : ℕ
  pub at_wait : ℕ
  pub at_retry : ℕ
  pub at_tracking : ℕ

-- `if self._queue.empty(): return None`, else `continue`
abbrev pub retry_round : List QueueMessage → Round
retry_round [] = timed_out
retry_round (m ∷ ms) = continued

-- What follows on the time to wait, up to the wait itself.
unfoldable pub wait_or_retry :
    InMemoryQueueAdapter → (String → String) → ℕ → Option ℕ → Round × InMemoryQueueAdapter
unfolding redeliver_expired
wait_or_retry q new_handle now none = (waiting none, q)
wait_or_retry q new_handle now (some zero) =
    let again = redeliver_expired q new_handle now in (retry_round again.queue, again)
wait_or_retry q new_handle now (some (suc n)) = (waiting (some (suc n)), q)

-- The `except asyncio.QueueEmpty` block, up to its wait.
unfoldable pub on_empty :
    InMemoryQueueAdapter → (String → String) → Option ℕ → Readings → Round × InMemoryQueueAdapter
unfolding dequeue_wait_timeout wait_or_retry
on_empty q new_handle deadline t =
    wait_or_retry q new_handle t.at_retry (dequeue_wait_timeout q deadline t.at_wait)

-- What `dequeue` does before its loop: the deadline of the loop.
unfoldable pub start_dequeue : InMemoryQueueAdapter → Option ℕ → ℕ → Result (Option ℕ)
start_dequeue q timeout now = do reject_if_closed q; ok (expiry timeout now)

-- What `get_nowait` finds once expired messages are back.
unfoldable pub take_next :
    InMemoryQueueAdapter → (String → String) → Option ℕ → Readings → Round × InMemoryQueueAdapter
unfolding on_empty track_in_flight
take_next q new_handle deadline t = elim q.queue [
  | [] ↦ on_empty q new_handle deadline t
  | m ∷ ms ↦ (delivered m, track_in_flight (record q { queue = ms }) m t.at_tracking)
]

-- One round of the loop of `dequeue`.
unfoldable pub dequeue_round :
    InMemoryQueueAdapter → (String → String) → Option ℕ → Readings → Round × InMemoryQueueAdapter
unfolding redeliver_expired take_next
dequeue_round q new_handle deadline t =
    take_next (redeliver_expired q new_handle t.at_redelivery) new_handle deadline t

-- The wait of `dequeue` is over: a message came, or the time was up (`except TimeoutError`).
unfoldable pub resume_wait : InMemoryQueueAdapter → ℕ → Round × InMemoryQueueAdapter
unfolding track_in_flight
resume_wait q now = elim q.queue [
  | [] ↦ (continued, q)
  | m ∷ ms ↦ (delivered m, track_in_flight (record q { queue = ms }) m now)
]

unfoldable pub pending : InMemoryQueueAdapter → (String → String) → ℕ → ℕ × InMemoryQueueAdapter
unfolding redeliver_expired
pending q new_handle now = let r = redeliver_expired q new_handle now in (length r.queue, r)

unfoldable pub in_flight : InMemoryQueueAdapter → (String → String) → ℕ → ℕ × InMemoryQueueAdapter
unfolding redeliver_expired
in_flight q new_handle now = let r = redeliver_expired q new_handle now in (length r.in_flight, r)

unfoldable pub dead_letters :
    InMemoryQueueAdapter → (String → String) → ℕ → List QueueMessage × InMemoryQueueAdapter
unfolding redeliver_expired
dead_letters q new_handle now = let r = redeliver_expired q new_handle now in (r.dead_letters, r)

abbrev pub close : InMemoryQueueAdapter → InMemoryQueueAdapter
close q = record q { closed = true }
