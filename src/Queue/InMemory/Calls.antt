-- ===== src/Queue/InMemory/Calls.antt =====
-- Runs of a queue, and the counting queue that it is meant to be.
use hydra_mind.Prelude.{
  one_if, ℕ, ◌+◌, String, ◌≡◌, Bool, true, false, not, ◌&&◌, Option, some, ok, str_eq,
}
use hydra_mind.Prelude.Dict.{get, contains, Payload}
use hydra_mind.Queue.Contracts.{QueueMessage}
use hydra_mind.Queue.InMemory.{
  InFlightMessage, InMemoryQueueAdapter, Readings, enqueue, dequeue_round, resume_wait, ack, nack,
  redeliver_expired, close,
}
use hydra_mind.Queue.InMemory.Tally.{outstanding, buried, uses}
use hydra_mind.Queue.InMemory.Redelivery.{IsBackground, AreFresh}

-- The pieces of the methods that run without a pause: the loop of `dequeue` is its rounds and the
-- ends of its waits, and `look` is what `pending`, `in_flight` and `dead_letters` do to the queue.
pub data Call : Type 0 where
  enqueue_call : String → Option Payload → String → ℕ → Call
  round_call : (String → String) → Option ℕ → Readings → Call
  resume_call : ℕ → Call
  look_call : (String → String) → ℕ → Call
  ack_call : QueueMessage → Call
  nack_call : QueueMessage → Bool → String → Call
  close_call : Call

-- A client gives back a message as it came: if its handle is in flight, it is the message there.
abbrev pub IsDelivered : InMemoryQueueAdapter → QueueMessage → Type 0
IsDelivered q m = (held : InFlightMessage) → get q.in_flight m.handle ≡ some held → held.message ≡ m

-- One call, with the handles that it draws new.
pub data Step (q : InMemoryQueueAdapter) : Call → InMemoryQueueAdapter → Type 0 where
  enqueued :
      (session_id : String) (metadata : Option Payload) (handle : String) (now : ℕ)
      (m : QueueMessage) (q' : InMemoryQueueAdapter)
      → uses handle q ≡ 0
      → enqueue q session_id metadata handle now ≡ ok (m, q')
      → Step q (enqueue_call session_id metadata handle now) q'
  polled :
      (f : String → String) (deadline : Option ℕ) (t : Readings)
      → AreFresh f q
      → Step q (round_call f deadline t) (dequeue_round q f deadline t).1
  resumed : (now : ℕ) → Step q (resume_call now) (resume_wait q now).1
  looked :
      (f : String → String) (now : ℕ)
      → AreFresh f q
      → Step q (look_call f now) (redeliver_expired q f now)
  acked : (m : QueueMessage) → IsDelivered q m → Step q (ack_call m) (ack q m)
  nacked :
      (m : QueueMessage) (retry : Bool) (handle : String)
      → uses handle q ≡ 0
      → IsDelivered q m
      → Step q (nack_call m retry handle) (nack q m retry handle)
  shut : Step q close_call (close q)

-- What the counting queue knows of a session: how many of its messages are outstanding, and how many
-- were given up as dead letters. Of the whole queue it knows whether it is closed, and which handles
-- are in flight.
pub record Board : Type 0 where
  pub waits : ℕ
  pub dead : ℕ
  pub closed : Bool
  pub holds : String → Bool

abbrev pub board : String → InMemoryQueueAdapter → Board
board s q = record {
  waits = outstanding s q;
  dead = buried s q;
  closed = q.closed;
  holds = λ h. contains q.in_flight h;
}

-- `n` messages are done with.
abbrev IsDone : ℕ → Board → Board → Type 0
IsDone n b b' = (b.waits ≡ b'.waits + n) × (b'.dead ≡ b.dead)

abbrev IsKept : Board → Board → Type 0
IsKept b b' = (b'.waits ≡ b.waits) × (b'.dead ≡ b.dead)

abbrev IsQuiet : Board → Board → Type 0
IsQuiet b b' = IsBackground b.closed b.waits b.dead b'.waits b'.dead

abbrev pub IsReturned : Bool → ℕ → Board → Board → Type 0
IsReturned true n b b' = IsBackground false b.waits b.dead b'.waits b'.dead
IsReturned false n b b' = IsDone n b b'

-- What a client gives back is settled if its handle was in flight; if not, nothing happens. The handle
-- is not in flight afterwards.
abbrev pub IsSettled : Bool → Bool → ℕ → Board → Board → Type 0
IsSettled true again n b b' = IsReturned again n b b'
IsSettled false again n b b' = IsKept b b'

-- What a call may change on the board of the session `s`.
abbrev Changes : String → Call → Board → Board → Type 0
Changes s (enqueue_call session_id _ _ _) b b' =
    (b.closed ≡ false) × (b'.waits ≡ b.waits + one_if (str_eq session_id s)) × (b'.dead ≡ b.dead)
Changes s (round_call _ _ _) b b' = IsQuiet b b'
Changes s (resume_call _) b b' = IsKept b b'
Changes s (look_call _ _) b b' = IsQuiet b b'
Changes s (ack_call m) b b' =
    (b'.holds m.handle ≡ false)
    × IsSettled (b.holds m.handle) false (one_if (str_eq m.session_id s)) b b'
Changes s (nack_call m retry _) b b' =
    (b'.holds m.handle ≡ false)
    × IsSettled (b.holds m.handle) (retry && not b.closed) (one_if (str_eq m.session_id s)) b b'
Changes s close_call b b' = IsKept b b'

-- Is the queue closed after the call?
abbrev closes : Call → Bool → Bool
closes close_call b = true
closes _ b = b

-- A step of the counting queue.
unfoldable pub IsSpecStep : String → Call → Board → Board → Type 0
unfolding IsBackground
IsSpecStep s c b b' = (b'.closed ≡ closes c b.closed) × Changes s c b b'
