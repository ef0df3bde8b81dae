-- ===== src/Queue/InMemory/Refinement.antt =====
-- The queue refines the counting queue.
use hydra_mind.Prelude.{
  one_if, ℕ, ◌+◌, ◌≤◌, String, ◌≡◌, refl, Bool, true, false, not, ◌&&◌, inl, inr, Option, none,
  some, [], ◌∷◌, ok, arith, str_eq, eq_iff, Option-cases, if◌then◌else◌, ap, sym, subst,
}
use hydra_mind.Prelude.Dict.{Dict, Payload, get, remove, contains}
use hydra_mind.Queue.Contracts.{QueueMessage}
use hydra_mind.Queue.InMemory.{
  InFlightMessage, InMemoryQueueAdapter, enqueue, ack, nack, pop_in_flight, retry_or_dead_letter,
  put_message, new_message,
}
use hydra_mind.Prelude.Entries.{entries-remove, remove-absent, entries_absent}
use hydra_mind.Queue.InMemory.Tally.{
  count, tally, of_session, has_handle, outstanding, buried, uses, IsConsistent, count-snoc,
  tally-remove,
}
use hydra_mind.Queue.InMemory.Redelivery.{
  IsBackground, taken_back-IsConsistent, IsTakenBack, retry-IsTakenBack,
  redeliver_expired-IsRedelivered,
}
use hydra_mind.Queue.InMemory.Calls.{
  ack_call, enqueue_call, nack_call, Call, Step, IsDelivered, board, IsSpecStep, IsReturned,
}
use hydra_mind.Queue.InMemory.Rounds.{round-IsPolled, resume-IsMoved}

-- A message that is given back is counted once.
handed_back :
    (s : String) (q : InMemoryQueueAdapter) (m : QueueMessage) (held : InFlightMessage)
    → IsConsistent q
    → IsDelivered q m
    → get q.in_flight m.handle ≡ some held
    → tally (of_session s) q.in_flight
      ≡ one_if (str_eq m.session_id s) + tally (of_session s) (remove q.in_flight m.handle)
handed_back s q m held c back found =
    subst
      (λ x.
        tally (of_session s) q.in_flight
        ≡ one_if (of_session s x) + tally (of_session s) (remove q.in_flight m.handle))
      (back held found)
      (tally-remove (of_session s) q.in_flight m.handle held found (omega (arith, c m.handle)))

removed-contains : (d : Dict InFlightMessage) (k : String) → contains (remove d k) k ≡ false
unfolding remove get
removed-contains [] k = refl
removed-contains ((j, w) ∷ d) k = ground (arith, removed-contains d k)

absent-contains : (d : Dict InFlightMessage) (k : String) → get d k ≡ none → contains d k ≡ false
absent-contains d k gone = rw gone refl

ack-IsSpecStep :
    (s : String) (q : InMemoryQueueAdapter) (m : QueueMessage)
    → IsConsistent q
    → IsDelivered q m
    → IsConsistent (ack q m) × IsSpecStep s (ack_call m) (board s q) (board s (ack q m))
unfolding ack IsSpecStep
ack-IsSpecStep s q m c back = (
  λ h. omega (arith, c h, entries-remove q.in_flight m.handle h),
  (
    refl,
    (
      removed-contains q.in_flight m.handle,
      elim (Option-cases (get q.in_flight m.handle)) [
        | inl gone ↦ rw gone (
          ap (λ d. count (of_session s) q.queue + tally (of_session s) d)
              (remove-absent q.in_flight m.handle (entries_absent q.in_flight m.handle gone)),
          refl,
        )
        | inr held ↦ rw held.1 (omega (arith, handed_back s q m held.0 c back held.1), refl)
      ],
    ),
  ),
)

live-numbers :
    (s : String) {k fresh : String} {q q' : InMemoryQueueAdapter}
    → IsTakenBack k fresh q q'
    → q.closed ≡ false
    → IsBackground false (outstanding s q) (buried s q) (outstanding s q') (buried s q')
live-numbers s {q} {q'} t live =
    subst (λ b. IsBackground b (outstanding s q) (buried s q) (outstanding s q') (buried s q')) live
      (t.numbers s)

-- Both ends of a `nack` of a message in flight.
returned :
    (s : String) (q : InMemoryQueueAdapter) (m : QueueMessage) (handle : String)
    (held : InFlightMessage)
    → IsConsistent q
    → uses handle q ≡ 0
    → IsDelivered q m
    → get q.in_flight m.handle ≡ some held
    → (again : Bool) → (again ≡ true → q.closed ≡ false)
    → let q' =
        if again
        then retry_or_dead_letter (pop_in_flight q m.handle) m "nack" handle
        else pop_in_flight q m.handle in
      IsConsistent q'
      × ((q'.closed ≡ q.closed)
          × (contains q'.in_flight m.handle ≡ false)
          × IsReturned again (one_if (str_eq m.session_id s)) (board s q) (board s q'))
returned s q m handle held c new back found true live = (
  taken_back-IsConsistent c new taken,
  (
    taken.same_closed,
    rw taken.popped (removed-contains q.in_flight m.handle),
    live-numbers s taken (live refl),
  ),
)
  where
    taken :
        IsTakenBack m.handle handle q
          (retry_or_dead_letter (pop_in_flight q m.handle) m "nack" handle)
    taken =
        retry-IsTakenBack q m.handle handle held found (omega (arith, c m.handle)) m "nack"
          (live refl) (ap (λ (x : QueueMessage). x.session_id) (sym (back held found)))
returned s q m handle held c new back found false live = (
  λ h. omega (arith, c h, entries-remove q.in_flight m.handle h),
  (
    refl,
    removed-contains q.in_flight m.handle,
    (omega (arith, handed_back s q m held c back found), refl),
  ),
)

nack-IsSpecStep :
    (s : String) (q : InMemoryQueueAdapter) (m : QueueMessage) (retry : Bool) (handle : String)
    → IsConsistent q
    → uses handle q ≡ 0
    → IsDelivered q m
    → IsConsistent (nack q m retry handle)
      × IsSpecStep s (nack_call m retry handle) (board s q) (board s (nack q m retry handle))
unfolding nack IsSpecStep
nack-IsSpecStep s q m retry handle c new back = elim (Option-cases (get q.in_flight m.handle)) [
  | inl gone ↦ simp (nack, gone) (c, (refl, (refl, (refl, refl))))
  | inr held ↦
      let after = returned s q m handle held.0 c new back held.1 (retry && not q.closed) live in
      simp (nack, held.1) (after.0, (after.1.0, (after.1.1, after.1.2)))
]
  where
    live : (retry && not q.closed) ≡ true → q.closed ≡ false
    live h = ground arith

pub enqueue-opened :
    (q : InMemoryQueueAdapter) (session_id : String) (metadata : Option Payload) (handle : String)
    (now : ℕ) {m : QueueMessage} {q' : InMemoryQueueAdapter}
    → enqueue q session_id metadata handle now ≡ ok (m, q')
    → (q.closed ≡ false) × (q' ≡ put_message q (new_message session_id metadata handle now))
unfolding enqueue
enqueue-opened q session_id metadata handle now h = ground arith

enqueue-IsSpecStep :
    (s : String) (q : InMemoryQueueAdapter) (session_id : String) (metadata : Option Payload)
    (handle : String) (now : ℕ) {m : QueueMessage} {q' : InMemoryQueueAdapter}
    → IsConsistent q
    → uses handle q ≡ 0
    → enqueue q session_id metadata handle now ≡ ok (m, q')
    → IsConsistent q'
      × IsSpecStep s (enqueue_call session_id metadata handle now) (board s q) (board s q')
unfolding enqueue IsSpecStep
enqueue-IsSpecStep s q session_id metadata handle now c new h =
    let opened = enqueue-opened q session_id metadata handle now h in
    subst
      (λ x.
        IsConsistent x
        × IsSpecStep s (enqueue_call session_id metadata handle now) (board s q) (board s x))
      (sym opened.1)
      (
        λ j. alone j,
        (refl, (opened.0, omega (arith, count-snoc (of_session s) q.queue message), refl)),
      )
  where
    message : QueueMessage
    message = new_message session_id metadata handle now

    alone : (j : String) → uses j (put_message q message) ≤ 1
    alone j = ground (arith, c j, new, count-snoc (has_handle j) q.queue message, eq_iff handle j)

-- Every call on a queue in which no handle is used twice leaves it so, and is a step of the counting
-- queue for each session. There an `enqueue` adds one outstanding message; an `ack` of a message whose
-- handle is in flight takes one away, as does a `nack` without a retry or of a closed queue; another
-- `nack` of such a message keeps the sum of outstanding messages and dead letters. After an `ack` or a
-- `nack` the handle is not in flight, and one whose handle was not in flight changes no number. What
-- happens behind the caller's back in an open queue turns messages into dead letters at most.
pub queue-refines :
    (s : String) {q q' : InMemoryQueueAdapter} {c : Call}
    → IsConsistent q
    → Step q c q'
    → IsConsistent q' × IsSpecStep s c (board s q) (board s q')
unfolding IsSpecStep
queue-refines s {q} k (Step.enqueued session_id metadata handle now m q' new h) =
    enqueue-IsSpecStep s _ session_id metadata handle now k new h
queue-refines s {q} k (Step.polled f deadline t fresh) =
    let p = round-IsPolled f deadline t q k fresh in (p.consistent, (p.same_closed, p.numbers s))
queue-refines s {q} k (Step.resumed now) =
    let p = resume-IsMoved q q.queue now k in
    (p.consistent, (p.same_closed, (p.same_waits s, p.same_dead s)))
queue-refines s {q} k (Step.looked f now fresh) =
    let p = redeliver_expired-IsRedelivered q f now k fresh in
    (p.consistent, (p.same_closed, p.numbers s))
queue-refines s {q} k (Step.acked m back) = ack-IsSpecStep s _ m k back
queue-refines s {q} k (Step.nacked m retry handle new back) =
    nack-IsSpecStep s _ m retry handle k new back
queue-refines s {q} k Step.shut = (k, (refl, (refl, refl)))
