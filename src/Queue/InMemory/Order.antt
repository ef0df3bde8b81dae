-- ===== src/Queue/InMemory/Order.antt =====
-- The order of delivery, and the return of what is overdue.
use hydra_mind.Prelude.{
  ℕ, zero, suc, ◌≤◌, String, ◌≡◌, refl, Bool, true, false, inl, inr, Option, some, List, [], ◌∷◌,
  ◌++◌, arith, str_eq, eq_iff, keep, get_elem?, length, Bool-cases, if◌then◌else◌, ◌∙◌, sym, subst,
}
use hydra_mind.Prelude.Dict.{Dict, get}
use hydra_mind.Queue.Contracts.{QueueMessage}
use hydra_mind.Queue.InMemory.{
  InFlightMessage, InMemoryQueueAdapter, Readings, Round, delivery_metadata, is_expired, reaches,
  retry_or_dead_letter, next_delivery, redeliver_one, redeliver_all, redeliver_expired, expired_at,
  track_in_flight, take_next, dequeue_round,
}
use hydra_mind.Queue.InMemory.Round.{delivered}
use hydra_mind.Queue.InMemory.Rounds.{round-IsPolled}
use hydra_mind.Queue.InMemory.Tally.{IsConsistent}
use hydra_mind.Queue.InMemory.Redelivery.{
  AreFresh, IsTakenBack, IsRedelivered, ArePending, expired-ArePending, pending-IsTakenBack,
  pending-ArePending, redeliver_all-IsRedelivered, redeliver_expired-IsRedelivered,
}

-- A poll: the handles that it draws, its deadline, and what it reads off the clock.
pub record Poll : Type 0 where
  pub new_handle : String → String
  pub deadline : Option ℕ
  pub readings : Readings

abbrev pub poll : InMemoryQueueAdapter → Poll → Round × InMemoryQueueAdapter
poll q p = dequeue_round q p.new_handle p.deadline p.readings

-- What a list of polls returns.
unfoldable pub polls : InMemoryQueueAdapter → List Poll → List Round
unfolding dequeue_round
polls q [] = []
polls q (p ∷ ps) = (poll q p).0 ∷ polls (poll q p).1 ps

-- The handles drawn by each poll are new when it draws them.
abbrev pub ArePollsFresh : InMemoryQueueAdapter → List Poll → Type 0
ArePollsFresh q [] = Unit
ArePollsFresh q (p ∷ ps) = AreFresh p.new_handle q × ArePollsFresh (poll q p).1 ps

-- The queue that a poll takes its message from.
abbrev pub refreshed : InMemoryQueueAdapter → Poll → InMemoryQueueAdapter
refreshed q p = redeliver_expired q p.new_handle p.readings.at_redelivery

poll_head :
    (q : InMemoryQueueAdapter) (p : Poll) (m : QueueMessage) (ms : List QueueMessage)
    → (refreshed q p).queue ≡ m ∷ ms
    → ((poll q p).0 ≡ delivered m) × ((poll q p).1.queue ≡ ms)
unfolding dequeue_round track_in_flight
poll_head q p m ms e = simp (take_next, e) (refl, refl)

get_elem?-append :
    (xs ys : List QueueMessage) (i : ℕ) (m : QueueMessage)
    → get_elem? xs i ≡ some m
    → get_elem? (xs ++ ys) i ≡ some m
get_elem?-append [] ys i m h = cc
get_elem?-append (x ∷ xs) ys zero m h = h
get_elem?-append (x ∷ xs) ys (suc i) m h = get_elem?-append xs ys i m h

refreshed-keeps :
    (q : InMemoryQueueAdapter) (p : Poll) (i : ℕ) (m : QueueMessage)
    → IsConsistent q
    → AreFresh p.new_handle q
    → get_elem? q.queue i ≡ some m
    → get_elem? (refreshed q p).queue i ≡ some m
refreshed-keeps q p i m c fresh h =
    rw grown.queue_grows (get_elem?-append q.queue grown.added i m h)
  where
    grown : IsRedelivered q (refreshed q p)
    grown = redeliver_expired-IsRedelivered q p.new_handle p.readings.at_redelivery c fresh

poll-IsConsistent :
    (q : InMemoryQueueAdapter) (p : Poll)
    → IsConsistent q
    → AreFresh p.new_handle q
    → IsConsistent (poll q p).1
poll-IsConsistent q p c fresh =
    (round-IsPolled p.new_handle p.deadline p.readings q c fresh).consistent

polls_from :
    (q : InMemoryQueueAdapter) (p : Poll) (ys : List QueueMessage) (ps : List Poll) (i : ℕ)
    (m : QueueMessage)
    → IsConsistent q
    → (refreshed q p).queue ≡ ys
    → ArePollsFresh q (p ∷ ps)
    → i ≤ length ps
    → get_elem? ys i ≡ some m
    → get_elem? (polls q (p ∷ ps)) i ≡ some (delivered m)
unfolding polls
polls_from q p [] ps i m c e fresh l h = cc
polls_from q p (y ∷ ys) ps zero m c e fresh l h = cc ((poll_head q p y ys e).0, h)
polls_from q p (y ∷ ys) [] (suc i) m c e fresh l h = absurd (omega arith)
polls_from q p (y ∷ ys) (p' ∷ ps) (suc i) m c e fresh l h =
    polls_from (poll q p).1 p' _ ps i m kept refl fresh.1 (omega arith)
      (refreshed-keeps (poll q p).1 p' i m kept fresh.1.0 (rw (poll_head q p y ys e).1 h))
  where
    kept : IsConsistent (poll q p).1
    kept = poll-IsConsistent q p c fresh.0

-- The poll whose number is the place of a message in the refreshed queue returns it.
refreshed-polls :
    (q : InMemoryQueueAdapter) (p : Poll) (ps : List Poll) (i : ℕ) (m : QueueMessage)
    → IsConsistent q
    → ArePollsFresh q (p ∷ ps)
    → i ≤ length ps
    → get_elem? (refreshed q p).queue i ≡ some m
    → get_elem? (polls q (p ∷ ps)) i ≡ some (delivered m)
refreshed-polls q p ps i m c fresh l h = polls_from q p _ ps i m c refl fresh l h

-- In a queue in which no handle is used twice, the message at a place is what the poll of that number
-- returns, whatever messages come back meanwhile, when the handles that the polls draw are new.
pub polls_in_order :
    (q : InMemoryQueueAdapter) (ps : List Poll) (i : ℕ) (m : QueueMessage)
    → IsConsistent q
    → ArePollsFresh q ps
    → suc i ≤ length ps
    → get_elem? q.queue i ≡ some m
    → get_elem? (polls q ps) i ≡ some (delivered m)
polls_in_order q [] i m c fresh l h = absurd (omega arith)
polls_in_order q (p ∷ ps) i m c fresh l h =
    refreshed-polls q p ps i m c fresh (omega arith) (refreshed-keeps q p i m c fresh.0 h)

-- A message that timed out, as it waits again under a new handle.
abbrev pub redelivery : QueueMessage → String → QueueMessage
redelivery m handle = record m {
  attempt = suc m.attempt;
  handle = handle;
  metadata = delivery_metadata m "visibility_timeout";
}

abbrev IsAmong : QueueMessage → List QueueMessage → Type 0
IsAmong m ms = (i : ℕ) × (get_elem? ms i ≡ some m)

IsAmong-snoc : (xs : List QueueMessage) (m : QueueMessage) → IsAmong m (xs ++ m ∷ [])
IsAmong-snoc [] m = (0, refl)
IsAmong-snoc (x ∷ xs) m = let rest = IsAmong-snoc xs m in (suc rest.0, rest.1)

one_waits :
    (q : InMemoryQueueAdapter) (h fresh : String) (held : InFlightMessage)
    → get q.in_flight h ≡ some held
    → q.closed ≡ false
    → reaches q.max_delivery_attempts (suc held.message.attempt) ≡ false
    → (redeliver_one q h held fresh).queue ≡ q.queue ++ redelivery held.message fresh ∷ []
unfolding redeliver_one retry_or_dead_letter next_delivery
one_waits q h fresh held found live early = simp (redeliver_one, found, live, early) refl

IsAmong-append :
    (m : QueueMessage) (xs ys : List QueueMessage) → IsAmong m xs → IsAmong m (xs ++ ys)
IsAmong-append m xs ys a = (a.0, get_elem?-append xs ys a.0 m a.1)

loop_waits :
    (f : String → String) (l : List (String × InFlightMessage)) (q : InMemoryQueueAdapter)
    (h : String) (held : InFlightMessage) (j : ℕ)
    → ArePending f l q
    → q.closed ≡ false
    → reaches q.max_delivery_attempts (suc held.message.attempt) ≡ false
    → get_elem? l j ≡ some (h, held)
    → IsAmong (redelivery held.message (f h)) (redeliver_all f l q).queue
unfolding redeliver_all
loop_waits f [] q h held j w live early e = cc
loop_waits f ((k, m) ∷ l) q h held zero w live early e =
    subst
      (λ x.
        IsAmong (redelivery x.1.message (f x.0))
          (redeliver_all f l (redeliver_one q k m (f k))).queue)
      same
      (rw after.queue_grows (
        IsAmong-append _ (redeliver_one q k m (f k)).queue after.added (
          rw
            (one_waits q k (f k) m w.held.0 live (
              subst (λ x. reaches q.max_delivery_attempts (suc x.1.message.attempt) ≡ false)
                (sym same) early))
            (IsAmong-snoc q.queue _))))
  where
    same : ◌≡◌ {A = String × InFlightMessage} (k, m) (h, held)
    same = cc e

    after :
        IsRedelivered (redeliver_one q k m (f k)) (redeliver_all f l (redeliver_one q k m (f k)))
    after = redeliver_all-IsRedelivered f l (redeliver_one q k m (f k)) (pending-ArePending w)
loop_waits f ((k, m) ∷ l) q h held (suc j) w live early e =
    loop_waits f l (redeliver_one q k m (f k)) h held j (pending-ArePending w)
      (t.same_closed ∙ live) (rw t.same_attempts early) e
  where
    t : IsTakenBack k (f k) q (redeliver_one q k m (f k))
    t = pending-IsTakenBack w

keep-has :
    (p : String × InFlightMessage → Bool) (d : Dict InFlightMessage) (h : String)
    (held : InFlightMessage)
    → get d h ≡ some held
    → p (h, held) ≡ true
    → (j : ℕ) × (get_elem? (keep p d) j ≡ some (h, held))
unfolding get
keep-has p [] h held e t = cc
keep-has p ((k, w) ∷ d) h held e t = elim (Bool-cases (str_eq k h)) [
  | inl here ↦ rw (first_passes here) (0, ground (arith, eq_iff k h))
  | inr past ↦ further (keep-has p d h held (ground arith) t) (p (k, w))
]
  where
    first_passes : str_eq k h ≡ true → p (k, w) ≡ true
    first_passes here = ground (arith, eq_iff k h)

    further :
        (j : ℕ) × (get_elem? (keep p d) j ≡ some (h, held))
        → (b : Bool)
        → (j : ℕ) × (get_elem? (if b then (k, w) ∷ keep p d else keep p d) j ≡ some (h, held))
    further r true = (suc r.0, r.1)
    further r false = r

-- A message that is overdue and has deliveries left waits again after the next look at the clock.
pub overdue_waits :
    (q : InMemoryQueueAdapter) (f : String → String) (now timeout : ℕ) (h : String)
    (held : InFlightMessage)
    → IsConsistent q
    → AreFresh f q
    → q.closed ≡ false
    → q.visibility_timeout ≡ some timeout
    → get q.in_flight h ≡ some held
    → is_expired now held.expires_at ≡ true
    → reaches q.max_delivery_attempts (suc held.message.attempt) ≡ false
    → IsAmong (redelivery held.message (f h)) (redeliver_expired q f now).queue
unfolding redeliver_expired
overdue_waits q f now timeout h held c fresh live t found late early =
    simp (redeliver_expired, t)
      (loop_waits f (keep (expired_at now) q.in_flight) q h held place.0
        (expired-ArePending q f now c fresh) live early place.1)
  where
    place : (j : ℕ) × (get_elem? (keep (expired_at now) q.in_flight) j ≡ some (h, held))
    place = keep-has (expired_at now) q.in_flight h held found late

get_elem?-length :
    (xs : List QueueMessage) (i : ℕ) (m : QueueMessage)
    → get_elem? xs i ≡ some m
    → suc i ≤ length xs
get_elem?-length [] i m h = cc h
get_elem?-length (x ∷ xs) zero m h = omega arith
get_elem?-length (x ∷ xs) (suc i) m h = omega (arith, get_elem?-length xs i m h)

-- Take a message in flight in an open queue with a timeout, that is overdue when a first poll looks at
-- the clock and has deliveries left. When there are at least as many polls as messages wait then, and
-- the handles that they draw are new, one of the polls returns the message, with its number of
-- deliveries raised, under the handle drawn for it.
pub overdue_returns :
    (q : InMemoryQueueAdapter) (p : Poll) (ps : List Poll) (timeout : ℕ) (h : String)
    (held : InFlightMessage)
    → IsConsistent q
    → ArePollsFresh q (p ∷ ps)
    → q.closed ≡ false
    → q.visibility_timeout ≡ some timeout
    → get q.in_flight h ≡ some held
    → is_expired p.readings.at_redelivery held.expires_at ≡ true
    → reaches q.max_delivery_attempts (suc held.message.attempt) ≡ false
    → length (refreshed q p).queue ≤ length (p ∷ ps)
    → (i : ℕ) × (get_elem? (polls q (p ∷ ps)) i
        ≡ some (delivered (redelivery held.message (p.new_handle h))))
overdue_returns q p ps timeout h held c fresh live t found late early enough = (
  place.0,
  refreshed-polls q p ps place.0 _ c fresh
      (omega (arith, get_elem?-length (refreshed q p).queue place.0 _ place.1)) place.1,
)
  where
    place : IsAmong (redelivery held.message (p.new_handle h)) (refreshed q p).queue
    place =
        overdue_waits q p.new_handle p.readings.at_redelivery timeout h held c fresh.0 live t found
          late early
