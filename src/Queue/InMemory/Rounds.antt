-- ===== src/Queue/InMemory/Rounds.antt =====
-- What the rounds of `dequeue` do to the handles and to the numbers of messages.
use hydra_mind.Prelude.{
  ℕ, zero, suc, String, ◌≡◌, refl, Bool, true, false, Option, none, some, List, [], ◌∷◌, arith,
  eq_refl, subst, ◌∙◌,
}
use hydra_mind.Queue.Contracts.{QueueMessage}
use hydra_mind.Queue.InMemory.{
  InMemoryQueueAdapter, Readings, dequeue_round, take_next, on_empty, wait_or_retry, resume_wait,
  redeliver_expired, track_in_flight,
}
use hydra_mind.Prelude.Entries.{entries, entries-put}
use hydra_mind.Queue.InMemory.Tally.{
  count, of_session, outstanding, buried, IsConsistent, tally-put,
}
use hydra_mind.Queue.InMemory.Redelivery.{
  IsBackground, IsBackground-trans, AreFresh, IsRedelivered, redeliver_expired-IsRedelivered,
  same-IsRedelivered,
}

-- A message that goes from the head of the queue into flight.
pub record IsMoved (q q' : InMemoryQueueAdapter) : Type 0 where
  pub consistent : IsConsistent q'
  pub same_closed : q'.closed ≡ q.closed
  pub same_waits : (s : String) → outstanding s q' ≡ outstanding s q
  pub same_dead : (s : String) → buried s q' ≡ buried s q

pub track-IsMoved :
    (q : InMemoryQueueAdapter) (m : QueueMessage) (ms : List QueueMessage) (now : ℕ)
    → IsConsistent (record q { queue = m ∷ ms })
    → IsMoved (record q { queue = m ∷ ms }) (track_in_flight (record q { queue = ms }) m now)
unfolding track_in_flight count
track-IsMoved q m ms now c = record {
  consistent = λ h. omega (arith, c h, entries-put q.in_flight m.handle h _ alone);
  same_closed = refl;
  same_waits = λ s. omega (arith, tally-put (of_session s) q.in_flight m.handle _ alone);
  same_dead = λ s. refl;
}
  where
    alone : entries m.handle q.in_flight ≡ 0
    alone = ground (arith, c m.handle, eq_refl m.handle)

-- What happens without the client: the queue stays consistent, and messages are not lost in it.
pub record IsPolled (q q' : InMemoryQueueAdapter) : Type 0 where
  pub consistent : IsConsistent q'
  pub same_closed : q'.closed ≡ q.closed
  pub numbers :
      (s : String)
      → IsBackground q.closed (outstanding s q) (buried s q) (outstanding s q') (buried s q')

redelivered-IsPolled : {q q' : InMemoryQueueAdapter} → IsRedelivered q q' → IsPolled q q'
redelivered-IsPolled r = record {
  consistent = r.consistent;
  same_closed = r.same_closed;
  numbers = r.numbers;
}

kept-IsBackground : (b : Bool) (o d o' d' : ℕ) → o' ≡ o → d' ≡ d → IsBackground b o d o' d'
unfolding IsBackground
kept-IsBackground true o d o' d' h k = (k, omega arith)
kept-IsBackground false o d o' d' h k = (omega arith, omega arith)

moved-IsPolled : {q q' : InMemoryQueueAdapter} → IsMoved q q' → IsPolled q q'
moved-IsPolled {q} m = record {
  consistent = m.consistent;
  same_closed = m.same_closed;
  numbers = λ s. kept-IsBackground q.closed _ _ _ _ (m.same_waits s) (m.same_dead s);
}

IsPolled-trans :
    {q q' q'' : InMemoryQueueAdapter} → IsPolled q q' → IsPolled q' q'' → IsPolled q q''
IsPolled-trans {q} {q'} {q''} h k = record {
  consistent = k.consistent;
  same_closed = k.same_closed ∙ h.same_closed;
  numbers = λ s. IsBackground-trans q.closed _ _ _ _ _ _ (h.numbers s) (
      subst
        (λ b. IsBackground b (outstanding s q') (buried s q') (outstanding s q'') (buried s q''))
        h.same_closed (k.numbers s));
}

pub resume-IsMoved :
    (q : InMemoryQueueAdapter) (xs : List QueueMessage) (now : ℕ)
    → IsConsistent (record q { queue = xs })
    → IsMoved (record q { queue = xs }) (resume_wait (record q { queue = xs }) now).1
unfolding resume_wait
resume-IsMoved q [] now c = record {
  consistent = c;
  same_closed = refl;
  same_waits = λ s. refl;
  same_dead = λ s. refl;
}
resume-IsMoved q (m ∷ ms) now c = track-IsMoved q m ms now c

module _ (f : String → String) (deadline : Option ℕ) (t : Readings) where
  wait-IsRedelivered :
      (q : InMemoryQueueAdapter) (left : Option ℕ)
      → IsConsistent q
      → AreFresh f q
      → IsRedelivered q (wait_or_retry q f t.at_retry left).1
  unfolding wait_or_retry
  wait-IsRedelivered q none c fresh = same-IsRedelivered q c
  wait-IsRedelivered q (some zero) c fresh = redeliver_expired-IsRedelivered q f t.at_retry c fresh
  wait-IsRedelivered q (some (suc n)) c fresh = same-IsRedelivered q c

  take-IsPolled :
      (q : InMemoryQueueAdapter) (xs : List QueueMessage)
      → IsConsistent (record q { queue = xs })
      → AreFresh f (record q { queue = [] })
      → IsPolled (record q { queue = xs }) (take_next (record q { queue = xs }) f deadline t).1
  unfolding take_next on_empty count
  take-IsPolled q [] c fresh =
      redelivered-IsPolled (wait-IsRedelivered (record q { queue = [] }) _ c fresh)
  take-IsPolled q (m ∷ ms) c fresh = moved-IsPolled (track-IsMoved q m ms t.at_tracking c)

  pub round-IsPolled :
      (q : InMemoryQueueAdapter)
      → IsConsistent q
      → AreFresh f q
      → IsPolled q (dequeue_round q f deadline t).1
  unfolding dequeue_round count
  round-IsPolled q c fresh = IsPolled-trans (redelivered-IsPolled first) (
      take-IsPolled (redeliver_expired q f t.at_redelivery) _ first.consistent (record {
        apart = λ h j m n e.
            fresh.apart h j (omega (arith, first.fewer h)) (omega (arith, first.fewer j)) e;
        unused = λ h m. omega (
          arith,
          first.fewer h,
          first.fewer (f h),
          fresh.unused h (omega (arith, first.fewer h)),
        );
      }))
    where
      first : IsRedelivered q (redeliver_expired q f t.at_redelivery)
      first = redeliver_expired-IsRedelivered q f t.at_redelivery c fresh
