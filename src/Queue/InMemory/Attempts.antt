-- ===== src/Queue/InMemory/Attempts.antt =====
-- How often a message is delivered when there is a limit.
use hydra_mind.Prelude.{
  ℕ, zero, suc, ◌<◌, String, ◌≡◌, Bool, true, false, not, ◌&&◌, inl, inr, Option, none, some, List,
  [], ◌∷◌, arith, keep, All, All-append, Option-cases, Bool-cases, if◌then◌else◌, sym, subst,
}
use hydra_mind.Prelude.Dict.{Dict, get, put, remove}
use hydra_mind.Queue.Contracts.{QueueMessage}
use hydra_mind.Queue.InMemory.{
  InFlightMessage, InMemoryQueueAdapter, Readings, put_message, reaches, retry_or_dead_letter,
  next_delivery, redeliver_one, redeliver_all, redeliver_expired, expired_at, track_in_flight,
  take_next, on_empty, wait_or_retry, dequeue_round, resume_wait, ack, nack, pop_in_flight,
}
use hydra_mind.Queue.InMemory.Refinement.{enqueue-opened}
use hydra_mind.Queue.InMemory.Runs.{Run}
use hydra_mind.Queue.InMemory.Calls.{Call, Step, IsDelivered}

-- With the limit `most`, what waits or is in flight was delivered less often, and what was given up
-- exactly so often.
pub record IsBounded (most : ℕ) (q : InMemoryQueueAdapter) : Type 0 where
  pub limit : q.max_delivery_attempts ≡ some most
  pub waits_below : All (λ m. m.attempt < most) q.queue
  pub flies_below : All (λ e. e.1.message.attempt < most) q.in_flight
  pub dead_at : All (λ m. m.attempt ≡ most) q.dead_letters

module _ (most : ℕ) where
  abbrev FliesBelow : List (String × InFlightMessage) → Type 0
  FliesBelow = All (λ e. e.1.message.attempt < most)

  remove-FliesBelow :
      (d : Dict InFlightMessage) (k : String) → FliesBelow d → FliesBelow (remove d k)
  unfolding remove
  remove-FliesBelow [] k h = tt
  remove-FliesBelow ((j, w) ∷ d) k h = ground (arith, remove-FliesBelow d k h.1)

  put-FliesBelow :
      (d : Dict InFlightMessage) (k : String) (v : InFlightMessage)
      → v.message.attempt < most
      → FliesBelow d
      → FliesBelow (put d k v)
  unfolding put
  put-FliesBelow [] k v b h = (b, tt)
  put-FliesBelow ((j, w) ∷ d) k v b h = ground (arith, put-FliesBelow d k v b h.1)

  get-FliesBelow :
      (d : Dict InFlightMessage) (k : String) (v : InFlightMessage)
      → get d k ≡ some v
      → FliesBelow d
      → v.message.attempt < most
  unfolding get
  get-FliesBelow [] k v e h = cc
  get-FliesBelow ((j, w) ∷ d) k v e h = ground (arith, get-FliesBelow d k v)

  keep-FliesBelow :
      (p : String × InFlightMessage → Bool) (d : Dict InFlightMessage)
      → FliesBelow d
      → FliesBelow (keep p d)
  keep-FliesBelow p [] h = tt
  keep-FliesBelow p (e ∷ d) h = ground (arith, keep-FliesBelow p d h.1)

  pop-IsBounded :
      (q : InMemoryQueueAdapter) (k : String)
      → IsBounded most q
      → IsBounded most (pop_in_flight q k)
  pop-IsBounded q k b = record {
    limit = b.limit;
    waits_below = b.waits_below;
    flies_below = remove-FliesBelow q.in_flight k b.flies_below;
    dead_at = b.dead_at;
  }

  put-IsBounded :
      (q : InMemoryQueueAdapter) (m : QueueMessage)
      → m.attempt < most
      → IsBounded most q
      → IsBounded most (put_message q m)
  put-IsBounded q m h b = record {
    limit = b.limit;
    waits_below = All-append _ q.queue (m ∷ []) b.waits_below (h, tt);
    flies_below = b.flies_below;
    dead_at = b.dead_at;
  }

  retry-IsBounded :
      (q : InMemoryQueueAdapter) (m : QueueMessage) (reason handle : String)
      → m.attempt < most
      → IsBounded most q
      → IsBounded most (retry_or_dead_letter q m reason handle)
  unfolding retry_or_dead_letter next_delivery
  retry-IsBounded q m reason handle h b =
      elim (Bool-cases (reaches q.max_delivery_attempts (suc m.attempt))) [
        | inl late ↦ rw late (record {
          limit = b.limit;
          waits_below = b.waits_below;
          flies_below = b.flies_below;
          dead_at = All-append _ q.dead_letters _ b.dead_at (at_limit late, tt);
        })
        | inr early ↦ rw early (put-IsBounded q _ (below_limit early) b)
      ]
    where
      at_limit : reaches q.max_delivery_attempts (suc m.attempt) ≡ true → suc m.attempt ≡ most
      at_limit late = ground (arith, subst (λ o. reaches o (suc m.attempt) ≡ true) b.limit late)

      below_limit : reaches q.max_delivery_attempts (suc m.attempt) ≡ false → suc m.attempt < most
      below_limit early =
          ground (arith, subst (λ o. reaches o (suc m.attempt) ≡ false) b.limit early)

  one-IsBounded :
      (q : InMemoryQueueAdapter) (k : String) (held : InFlightMessage) (fresh : String)
      → held.message.attempt < most
      → IsBounded most q
      → IsBounded most (redeliver_one q k held fresh)
  unfolding redeliver_one
  one-IsBounded q k held fresh h b = elim (Option-cases (get q.in_flight k)) [
    | inl gone ↦ rw (redeliver_one, gone) b
    | inr found ↦ rw (redeliver_one, found.1) (by_closed (not q.closed))
  ]
    where
      by_closed :
          (live : Bool)
          → IsBounded most (
              if live
              then retry_or_dead_letter (pop_in_flight q k) held.message "visibility_timeout" fresh
              else pop_in_flight q k)
      by_closed true =
          retry-IsBounded (pop_in_flight q k) held.message _ fresh h (pop-IsBounded q k b)
      by_closed false = pop-IsBounded q k b

  all-IsBounded :
      (f : String → String) (l : List (String × InFlightMessage)) (q : InMemoryQueueAdapter)
      → FliesBelow l
      → IsBounded most q
      → IsBounded most (redeliver_all f l q)
  unfolding redeliver_all
  all-IsBounded f [] q h b = b
  all-IsBounded f ((k, held) ∷ l) q h b =
      all-IsBounded f l (redeliver_one q k held (f k)) h.1 (one-IsBounded q k held (f k) h.0 b)

  expired-IsBounded :
      (q : InMemoryQueueAdapter) (f : String → String) (now : ℕ)
      → IsBounded most q
      → IsBounded most (redeliver_expired q f now)
  unfolding redeliver_expired
  expired-IsBounded q f now b = elim (Option-cases q.visibility_timeout) [
    | inl never ↦ simp (redeliver_expired, never) b
    | inr timeout ↦
        simp (redeliver_expired, timeout.1)
          (all-IsBounded f _ q (keep-FliesBelow (expired_at now) q.in_flight b.flies_below) b)
  ]

  track-IsBounded :
      (q : InMemoryQueueAdapter) (m : QueueMessage) (ms : List QueueMessage) (now : ℕ)
      → IsBounded most (record q { queue = m ∷ ms })
      → IsBounded most (track_in_flight (record q { queue = ms }) m now)
  unfolding track_in_flight
  track-IsBounded q m ms now b = record {
    limit = b.limit;
    waits_below = b.waits_below.1;
    flies_below = put-FliesBelow q.in_flight m.handle _ b.waits_below.0 b.flies_below;
    dead_at = b.dead_at;
  }

  resume-IsBounded :
      (q : InMemoryQueueAdapter) (xs : List QueueMessage) (now : ℕ)
      → IsBounded most (record q { queue = xs })
      → IsBounded most (resume_wait (record q { queue = xs }) now).1
  unfolding resume_wait
  resume-IsBounded q [] now b = b
  resume-IsBounded q (m ∷ ms) now b = track-IsBounded q m ms now b

  wait-IsBounded :
      (q : InMemoryQueueAdapter) (f : String → String) (now : ℕ) (left : Option ℕ)
      → IsBounded most q
      → IsBounded most (wait_or_retry q f now left).1
  unfolding wait_or_retry
  wait-IsBounded q f now none b = b
  wait-IsBounded q f now (some zero) b = expired-IsBounded q f now b
  wait-IsBounded q f now (some (suc n)) b = b

  take-IsBounded :
      (q : InMemoryQueueAdapter) (xs : List QueueMessage) (f : String → String)
      (deadline : Option ℕ) (t : Readings)
      → IsBounded most (record q { queue = xs })
      → IsBounded most (take_next (record q { queue = xs }) f deadline t).1
  unfolding take_next on_empty
  take-IsBounded q [] f deadline t b = wait-IsBounded (record q { queue = [] }) f t.at_retry _ b
  take-IsBounded q (m ∷ ms) f deadline t b = track-IsBounded q m ms t.at_tracking b

  nack-IsBounded :
      (q : InMemoryQueueAdapter) (m : QueueMessage) (retry : Bool) (handle : String)
      → IsDelivered q m
      → IsBounded most q
      → IsBounded most (nack q m retry handle)
  unfolding nack
  nack-IsBounded q m retry handle back b = elim (Option-cases (get q.in_flight m.handle)) [
    | inl gone ↦ simp (nack, gone) b
    | inr found ↦
        simp (nack, found.1)
          (by_retry
            (subst (λ x. x.attempt < most) (back found.0 found.1)
              (get-FliesBelow q.in_flight m.handle found.0 found.1 b.flies_below))
            (retry && not q.closed))
  ]
    where
      by_retry :
          m.attempt < most
          → (again : Bool)
          → IsBounded most (
              if again
              then retry_or_dead_letter (pop_in_flight q m.handle) m "nack" handle
              else pop_in_flight q m.handle)
      by_retry h true =
          retry-IsBounded (pop_in_flight q m.handle) m _ handle h (pop-IsBounded q _ b)
      by_retry h false = pop-IsBounded q _ b

  -- With a positive limit, every call keeps the numbers of deliveries below it, and dead letters
  -- are those that reached it.
  pub step-IsBounded :
      {q q' : InMemoryQueueAdapter} {c : Call}
      → 0 < most
      → IsBounded most q
      → Step q c q'
      → IsBounded most q'
  unfolding dequeue_round ack
  step-IsBounded {q} p b (Step.enqueued session_id metadata handle now m q' new h) =
      subst (IsBounded most) (sym (enqueue-opened q session_id metadata handle now h).1)
        (put-IsBounded q _ p b)
  step-IsBounded {q} p b (Step.polled f deadline t fresh) =
      take-IsBounded (redeliver_expired q f t.at_redelivery) _ f deadline t
        (expired-IsBounded q f t.at_redelivery b)
  step-IsBounded {q} p b (Step.resumed now) = resume-IsBounded q q.queue now b
  step-IsBounded {q} p b (Step.looked f now fresh) = expired-IsBounded q f now b
  step-IsBounded {q} p b (Step.acked m back) = pop-IsBounded q m.handle b
  step-IsBounded {q} p b (Step.nacked m retry handle new back) =
      nack-IsBounded q m retry handle back b
  step-IsBounded {q} p b Step.shut = record {
    limit = b.limit;
    waits_below = b.waits_below;
    flies_below = b.flies_below;
    dead_at = b.dead_at;
  }

-- With a positive limit on deliveries, any sequence of calls keeps the number of deliveries of each
-- message that waits or is in flight below the limit, and that of each dead letter at the limit.
pub attempts-IsBounded :
    (most : ℕ) {q q' : InMemoryQueueAdapter} {cs : List Call}
    → 0 < most
    → IsBounded most q
    → Run q cs q'
    → IsBounded most q'
attempts-IsBounded most p b Run.idle = b
attempts-IsBounded most p b (Run.then k r) = attempts-IsBounded most p (step-IsBounded most p b k) r
