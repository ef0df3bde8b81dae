-- ===== src/Examples/Queues.antt =====
-- A queue with one message that waits and one in flight that is overdue.
use hydra_mind.Prelude.{
  ℕ, String, ◌≡◌, refl, false, none, some, [], ◌∷◌, List, arith, eq_iff, ◌+◌, get_elem?,
}
use hydra_mind.Prelude.Dict.{get, put, remove}
use hydra_mind.Prelude.Entries.{entries}
use hydra_mind.Queue.Contracts.{QueueMessage}
use hydra_mind.Queue.InMemory.{
  InMemoryQueueAdapter, Readings, dequeue_round, redeliver_expired, redeliver_all, redeliver_one,
  retry_or_dead_letter, next_delivery, take_next, track_in_flight, enqueue, new_message,
  put_message,
}
use hydra_mind.Queue.InMemory.Tally.{count, IsConsistent, outstanding, buried}
use hydra_mind.Queue.InMemory.Redelivery.{AreFresh}
use hydra_mind.Queue.InMemory.Calls.{Call, Step, board, IsSpecStep}
use hydra_mind.Queue.InMemory.Refinement.{queue-refines}
use hydra_mind.Queue.InMemory.Runs.{Run, entered, no_message_lost}
use hydra_mind.Queue.InMemory.Attempts.{IsBounded, attempts-IsBounded}
use hydra_mind.Queue.InMemory.Order.{
  Poll, poll, polls, ArePollsFresh, polls_in_order, overdue_returns, redelivery,
}
use hydra_mind.Queue.InMemory.Round.{delivered}

abbrev message : String → QueueMessage
message handle = new_message "s1" none handle 0

abbrev busy : InMemoryQueueAdapter
busy = record {
  queue = message "m1" ∷ [];
  in_flight = ("h1", record { message = message "h1"; expires_at = some 5 }) ∷ [];
  dead_letters = [];
  visibility_timeout = some 10;
  max_delivery_attempts = some 3;
  closed = false;
}

abbrev readings : Readings
readings = record { at_redelivery = 7; at_wait = 7; at_retry = 7; at_tracking = 7 }

abbrev first_poll : Poll
first_poll = record { new_handle = λ h. "h2"; deadline = none; readings = readings }

abbrev second_poll : Poll
second_poll = record { new_handle = λ h. "h3"; deadline = none; readings = readings }

busy-IsConsistent : IsConsistent busy
unfolding count entries
busy-IsConsistent h = ground (arith, eq_iff "m1" h, eq_iff "h1" h, eq_iff "m1" "h1")

first-AreFresh : AreFresh (λ h. "h2") busy
unfolding count entries
first-AreFresh = record {
  apart = λ h j m n e. ground (arith, eq_iff "h1" h, eq_iff "h1" j);
  unused = λ h m. refl;
}

second-AreFresh : AreFresh (λ h. "h3") (poll busy first_poll).1
unfolding count entries dequeue_round redeliver_expired redeliver_all redeliver_one
    retry_or_dead_letter next_delivery take_next track_in_flight get put remove
second-AreFresh = record {
  apart = λ h j m n e. ground (arith, eq_iff "m1" h, eq_iff "m1" j);
  unused = λ h m. refl;
}

polls-AreFresh : ArePollsFresh busy (first_poll ∷ second_poll ∷ [])
polls-AreFresh = (first-AreFresh, (second-AreFresh, tt))

queue-refines_example :
    IsConsistent (dequeue_round busy (λ h. "h2") none readings).1
    × IsSpecStep "s1"
        (Call.round_call (λ h. "h2") none readings)
        (board "s1" busy)
        (board "s1" (dequeue_round busy (λ h. "h2") none readings).1)
queue-refines_example =
    queue-refines "s1" busy-IsConsistent (Step.polled (λ h. "h2") none readings first-AreFresh)

-- A poll, and then a message that comes in.
abbrev polled : InMemoryQueueAdapter
polled = (dequeue_round busy (λ h. "h2") none readings).1

abbrev filled : InMemoryQueueAdapter
filled = put_message polled (message "m4")

abbrev two_calls : List Call
two_calls = Call.round_call (λ h. "h2") none readings ∷ Call.enqueue_call "s1" none "m4" 0 ∷ []

two_calls-Run : Run busy two_calls filled
unfolding count entries dequeue_round redeliver_expired redeliver_all redeliver_one
    retry_or_dead_letter next_delivery take_next track_in_flight get put remove enqueue
two_calls-Run =
    Run.then (Step.polled (λ h. "h2") none readings first-AreFresh)
      (Run.then (Step.enqueued "s1" none "m4" 0 (message "m4") filled refl refl) Run.idle)

no_message_lost_example :
    outstanding "s1" filled + buried "s1" filled
    ≡ outstanding "s1" busy + buried "s1" busy + entered "s1" two_calls
no_message_lost_example = no_message_lost "s1" busy-IsConsistent refl refl two_calls-Run

busy-IsBounded : IsBounded 3 busy
busy-IsBounded = record {
  limit = refl;
  waits_below = (omega arith, tt);
  flies_below = (omega arith, tt);
  dead_at = tt;
}

attempts-IsBounded_example : IsBounded 3 filled
attempts-IsBounded_example = attempts-IsBounded 3 (omega arith) busy-IsBounded two_calls-Run

polls_in_order_example :
    get_elem? (polls busy (first_poll ∷ second_poll ∷ [])) 0 ≡ some (delivered (message "m1"))
polls_in_order_example =
    polls_in_order busy (first_poll ∷ second_poll ∷ []) 0 (message "m1") busy-IsConsistent
      polls-AreFresh (omega arith) refl

overdue_returns_example :
    (i : ℕ) × (get_elem? (polls busy (first_poll ∷ second_poll ∷ [])) i
      ≡ some (delivered (redelivery (message "h1") "h2")))
unfolding redeliver_expired redeliver_all redeliver_one retry_or_dead_letter next_delivery get
    remove
overdue_returns_example =
    overdue_returns busy first_poll (second_poll ∷ []) 10 "h1"
      (record { message = message "h1"; expires_at = some 5 }) busy-IsConsistent polls-AreFresh refl
      refl refl refl refl (omega arith)
