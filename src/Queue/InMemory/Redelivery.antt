-- ===== src/Queue/InMemory/Redelivery.antt =====
-- What the redelivery of expired messages does to the handles and to the numbers of messages.
use hydra_mind.Prelude.{
  one_if, not, ap, ℕ, suc, ◌+◌, ◌≤◌, String, ◌≡◌, refl, Bool, true, false, some, List, [], ◌∷◌,
  ◌++◌, arith, if◌then◌else◌, str_eq, eq_iff, eq_refl, keep, Bool-cases, inl, inr, Option-cases,
  subst, ◌∙◌,
}
use hydra_mind.Prelude.Dict.{get, remove}
use hydra_mind.Queue.Contracts.{QueueMessage}
use hydra_mind.Queue.InMemory.{
  InFlightMessage, InMemoryQueueAdapter, retry_or_dead_letter, next_delivery, pop_in_flight,
  redeliver_one, redeliver_all, redeliver_expired, expired_at, reaches,
}
use hydra_mind.Prelude.Entries.{
  entries, entries-remove, entries-keep, AreHeld, AreHeld-all, AreHeld-keep, AreHeld-remove,
}
use hydra_mind.Queue.InMemory.Tally.{
  tally, of_session, has_handle, outstanding, buried, uses, IsConsistent, count-snoc, tally-remove,
}

-- What may happen behind the caller's back. In an open queue a message that is outstanding stays so
-- or becomes a dead letter; in a closed one it may be dropped.
unfoldable pub IsBackground : Bool → ℕ → ℕ → ℕ → ℕ → Type 0
IsBackground false waits dead waits' dead' = (waits' + dead' ≡ waits + dead) × (dead ≤ dead')
IsBackground true waits dead waits' dead' = (dead' ≡ dead) × (waits' ≤ waits)

pub IsBackground-trans :
    (b : Bool) (o d o' d' o'' d'' : ℕ)
    → IsBackground b o d o' d'
    → IsBackground b o' d' o'' d''
    → IsBackground b o d o'' d''
unfolding IsBackground
IsBackground-trans false o d o' d' o'' d'' h k = (omega arith, omega arith)
IsBackground-trans true o d o' d' o'' d'' h k = (omega arith, omega arith)

-- A queue after one message with the handle `k` was taken back.
pub record IsTakenBack (k fresh : String) (q q' : InMemoryQueueAdapter) : Type 0 where
  pub popped : q'.in_flight ≡ remove q.in_flight k
  pub same_closed : q'.closed ≡ q.closed
  pub same_timeout : q'.visibility_timeout ≡ q.visibility_timeout
  pub same_attempts : q'.max_delivery_attempts ≡ q.max_delivery_attempts
  pub added : List QueueMessage
  pub queue_grows : q'.queue ≡ q.queue ++ added
  pub handles : (h : String) → uses h q' ≤ uses h q + one_if (str_eq fresh h)
  pub numbers :
      (s : String)
      → IsBackground q.closed (outstanding s q) (buried s q) (outstanding s q') (buried s q')

append-nil : (xs : List QueueMessage) → xs ≡ xs ++ []
append-nil [] = refl
append-nil (x ∷ xs) = rw (← append-nil xs) refl

module _ (q : InMemoryQueueAdapter) (k fresh : String) (held : InFlightMessage)
    (found : get q.in_flight k ≡ some held) (once : entries k q.in_flight ≤ 1) where
  pub dropped-IsTakenBack : q.closed ≡ true → IsTakenBack k fresh q (pop_in_flight q k)
  unfolding IsBackground
  dropped-IsTakenBack c = record {
    popped = refl;
    same_closed = refl;
    same_timeout = refl;
    same_attempts = refl;
    added = [];
    queue_grows = append-nil q.queue;
    handles = λ h. omega (arith, entries-remove q.in_flight k h);
    numbers =
        λ s. rw c (refl, omega (arith, tally-remove (of_session s) q.in_flight k held found once));
  }

  pub retry-IsTakenBack :
      (m : QueueMessage) (reason : String)
      → q.closed ≡ false
      → m.session_id ≡ held.message.session_id
      → IsTakenBack k fresh q (retry_or_dead_letter (pop_in_flight q k) m reason fresh)
  unfolding retry_or_dead_letter next_delivery IsBackground
  retry-IsTakenBack m reason c same =
      elim (Bool-cases (reaches q.max_delivery_attempts (suc m.attempt))) [
        | inl late ↦ rw late (record {
          popped = refl;
          same_closed = refl;
          same_timeout = refl;
          same_attempts = refl;
          added = [];
          queue_grows = append-nil q.queue;
          handles = λ h. omega (arith, entries-remove q.in_flight k h);
          numbers = λ s. rw c (
            omega (arith, count-snoc (of_session s) q.dead_letters _, taken s),
            omega (arith, count-snoc (of_session s) q.dead_letters _),
          );
        })
        | inr early ↦ rw early (record {
          popped = refl;
          same_closed = refl;
          same_timeout = refl;
          same_attempts = refl;
          added = _;
          queue_grows = refl;
          handles = λ h.
              omega (arith, count-snoc (has_handle h) q.queue _, entries-remove q.in_flight k h);
          numbers =
              λ s. rw c (omega (arith, count-snoc (of_session s) q.queue _, taken s), omega arith);
        })
      ]
    where
      taken :
          (s : String)
          → tally (of_session s) q.in_flight
            ≡ one_if (of_session s m) + tally (of_session s) (remove q.in_flight k)
      taken s = rw same (tally-remove (of_session s) q.in_flight k held found once)

  pub redeliver-IsTakenBack : IsTakenBack k fresh q (redeliver_one q k held fresh)
  unfolding redeliver_one
  redeliver-IsTakenBack = rw (redeliver_one, found) (by_closed q.closed refl)
    where
      by_closed :
          (b : Bool)
          → q.closed ≡ b
          → IsTakenBack k fresh q (
              if not b
              then retry_or_dead_letter (pop_in_flight q k) held.message "visibility_timeout" fresh
              else pop_in_flight q k)
      by_closed true shut = dropped-IsTakenBack shut
      by_closed false live = retry-IsTakenBack held.message _ live refl

pub taken_back-IsConsistent :
    {k fresh : String} {q q' : InMemoryQueueAdapter}
    → IsConsistent q
    → uses fresh q ≡ 0
    → IsTakenBack k fresh q q'
    → IsConsistent q'
taken_back-IsConsistent {fresh} c new t h = ground (arith, c h, new, t.handles h, eq_iff fresh h)

-- The handles drawn for what is in flight are new, and no two of them are the same.
pub record AreFresh (new_handle : String → String) (q : InMemoryQueueAdapter) : Type 0 where
  pub apart :
      (h j : String)
      → 1 ≤ entries h q.in_flight
      → 1 ≤ entries j q.in_flight
      → new_handle h ≡ new_handle j
      → h ≡ j
  pub unused : (h : String) → 1 ≤ entries h q.in_flight → uses (new_handle h) q ≡ 0

-- A queue after any number of messages were taken back.
pub record IsRedelivered (q q' : InMemoryQueueAdapter) : Type 0 where
  pub consistent : IsConsistent q'
  pub same_closed : q'.closed ≡ q.closed
  pub same_timeout : q'.visibility_timeout ≡ q.visibility_timeout
  pub same_attempts : q'.max_delivery_attempts ≡ q.max_delivery_attempts
  pub added : List QueueMessage
  pub queue_grows : q'.queue ≡ q.queue ++ added
  pub fewer : (h : String) → entries h q'.in_flight ≤ entries h q.in_flight
  pub numbers :
      (s : String)
      → IsBackground q.closed (outstanding s q) (buried s q) (outstanding s q') (buried s q')

pub same-IsRedelivered : (q : InMemoryQueueAdapter) → IsConsistent q → IsRedelivered q q
unfolding IsBackground
same-IsRedelivered q c = record {
  consistent = c;
  same_closed = refl;
  same_timeout = refl;
  same_attempts = refl;
  added = [];
  queue_grows = append-nil q.queue;
  fewer = λ h. omega arith;
  numbers = λ s. elim (Bool-cases q.closed) [
    | inl shut ↦ rw shut (refl, omega arith)
    | inr live ↦ rw live (refl, omega arith)
  ];
}

append_assoc : (xs ys zs : List QueueMessage) → (xs ++ ys) ++ zs ≡ xs ++ (ys ++ zs)
append_assoc [] ys zs = refl
append_assoc (x ∷ xs) ys zs = rw (append_assoc xs ys zs) refl

before-IsRedelivered :
    {k fresh : String} {q q' q'' : InMemoryQueueAdapter}
    → IsTakenBack k fresh q q'
    → IsRedelivered q' q''
    → IsRedelivered q q''
before-IsRedelivered {k} {q} {q'} {q''} t r = record {
  consistent = r.consistent;
  same_closed = r.same_closed ∙ t.same_closed;
  same_timeout = r.same_timeout ∙ t.same_timeout;
  same_attempts = r.same_attempts ∙ t.same_attempts;
  added = t.added ++ r.added;
  queue_grows = r.queue_grows ∙ (rw t.queue_grows (append_assoc q.queue t.added r.added));
  fewer = λ h. fewer_one h t.popped;
  numbers = λ s. IsBackground-trans q.closed _ _ _ _ _ _ (t.numbers s) (
      subst
        (λ b. IsBackground b (outstanding s q') (buried s q') (outstanding s q'') (buried s q''))
        t.same_closed (r.numbers s));
}
  where
    fewer_one :
        (h : String)
        → q'.in_flight ≡ remove q.in_flight k
        → entries h q''.in_flight ≤ entries h q.in_flight
    fewer_one h popped =
        omega (arith, r.fewer h, ap (entries h) popped, entries-remove q.in_flight k h)

-- What the loop still has to take back is in flight, and the handles that it will draw are new.
pub record ArePending (f : String → String) (l : List (String × InFlightMessage))
    (q : InMemoryQueueAdapter) : Type 0 where
  pub apart : (h j : String) → 1 ≤ entries h l → 1 ≤ entries j l → f h ≡ f j → h ≡ j
  pub consistent : IsConsistent q
  pub held : AreHeld q.in_flight l
  pub once : (h : String) → entries h l ≤ 1
  pub unused : (h : String) → 1 ≤ entries h l → uses (f h) q ≡ 0

module _ {f : String → String} {h : String} {m : InFlightMessage}
    {l : List (String × InFlightMessage)} {q : InMemoryQueueAdapter}
    (w : ArePending f ((h, m) ∷ l) q) where
  gone : entries h l ≡ 0
  unfolding entries
  gone = ground (arith, w.once h, eq_refl h)

  pub pending-IsTakenBack : IsTakenBack h (f h) q (redeliver_one q h m (f h))
  pending-IsTakenBack = redeliver-IsTakenBack q h (f h) m w.held.0 (omega (arith, w.consistent h))

  pub pending-ArePending : ArePending f l (redeliver_one q h m (f h))
  unfolding entries
  pending-ArePending = record {
    apart = λ x y m n e. w.apart x y (ground arith) (ground arith) e;
    consistent =
        taken_back-IsConsistent w.consistent (w.unused h (ground (arith, eq_refl h)))
          pending-IsTakenBack;
    held = rw pending-IsTakenBack.popped (AreHeld-remove q.in_flight h l gone w.held.1);
    once = λ x. ground (arith, w.once x);
    unused = λ x p. ground (
      arith,
      w.unused x,
      pending-IsTakenBack.handles (f x),
      eq_iff (f h) (f x),
      w.apart h x,
      gone,
      eq_refl h,
    );
  }

pub redeliver_all-IsRedelivered :
    (f : String → String) (l : List (String × InFlightMessage)) (q : InMemoryQueueAdapter)
    → ArePending f l q
    → IsRedelivered q (redeliver_all f l q)
unfolding redeliver_all
redeliver_all-IsRedelivered f [] q w = same-IsRedelivered q w.consistent
redeliver_all-IsRedelivered f ((h, m) ∷ l) q w =
    before-IsRedelivered (pending-IsTakenBack w)
      (redeliver_all-IsRedelivered f l (redeliver_one q h m (f h)) (pending-ArePending w))

pub expired-ArePending :
    (q : InMemoryQueueAdapter) (f : String → String) (now : ℕ)
    → IsConsistent q
    → AreFresh f q
    → ArePending f (keep (expired_at now) q.in_flight) q
expired-ArePending q f now c fresh = record {
  apart = λ h j m n e.
      fresh.apart h j (omega (arith, entries-keep (expired_at now) q.in_flight h))
        (omega (arith, entries-keep (expired_at now) q.in_flight j)) e;
  consistent = c;
  held = AreHeld-keep _ q.in_flight q.in_flight (AreHeld-all q.in_flight (λ h. omega (arith, c h)));
  once = λ h. omega (arith, entries-keep (expired_at now) q.in_flight h, c h);
  unused = λ h p. fresh.unused h (omega (arith, entries-keep (expired_at now) q.in_flight h));
}

pub redeliver_expired-IsRedelivered :
    (q : InMemoryQueueAdapter) (f : String → String) (now : ℕ)
    → IsConsistent q
    → AreFresh f q
    → IsRedelivered q (redeliver_expired q f now)
unfolding redeliver_expired
redeliver_expired-IsRedelivered q f now c fresh = elim (Option-cases q.visibility_timeout) [
  | inl never ↦ simp (redeliver_expired, never) (same-IsRedelivered q c)
  | inr some_time ↦
      simp (redeliver_expired, some_time.1)
        (redeliver_all-IsRedelivered f (keep (expired_at now) q.in_flight) q
          (expired-ArePending q f now c fresh))
]
