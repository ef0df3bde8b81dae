-- ===== src/Queue/InMemory/Runs.antt =====
-- What any sequence of calls does, by the steps of the counting queue alone.
use hydra_mind.Prelude.{
  one_if, ℕ, ◌+◌, String, ◌≡◌, Bool, true, false, not, ◌∙◌, List, [], ◌∷◌, arith, str_eq, all,
}
use hydra_mind.Queue.InMemory.{InMemoryQueueAdapter}
use hydra_mind.Queue.InMemory.Tally.{outstanding, buried, IsConsistent}
use hydra_mind.Queue.InMemory.Redelivery.{IsBackground}
use hydra_mind.Queue.InMemory.Calls.{Call, IsReturned, IsSettled, Step, Board, board, IsSpecStep}
use hydra_mind.Queue.InMemory.Refinement.{queue-refines}

pub data Run : InMemoryQueueAdapter → List Call → InMemoryQueueAdapter → Type 0 where
  idle : {q : InMemoryQueueAdapter} → Run q [] q
  then :
      {q q' q'' : InMemoryQueueAdapter} {c : Call} {cs : List Call}
      → Step q c q'
      → Run q' cs q''
      → Run q (c ∷ cs) q''

-- A call by which the client gives no message up.
abbrev pub gives_up_nothing : Call → Bool
gives_up_nothing (Call.ack_call m) = false
gives_up_nothing (Call.nack_call m retry handle) = retry
gives_up_nothing Call.close_call = false
gives_up_nothing _ = true

abbrev entered_by : String → Call → ℕ
entered_by s (Call.enqueue_call session_id metadata handle now) = one_if (str_eq session_id s)
entered_by s _ = 0

-- The messages of a session that calls bring in.
unfoldable pub entered : String → List Call → ℕ
entered s [] = 0
entered s (c ∷ cs) = entered_by s c + entered s cs

quiet-conserves :
    (c : Bool) (o d o' d' : ℕ) → c ≡ false → IsBackground c o d o' d' → o' + d' ≡ o + d
unfolding IsBackground
quiet-conserves true o d o' d' h k = cc h
quiet-conserves false o d o' d' h k = k.0

returned-conserves :
    (c : Bool) (n : ℕ) (b b' : Board)
    → c ≡ false
    → IsReturned (not c) n b b'
    → b'.waits + b'.dead ≡ b.waits + b.dead
unfolding IsBackground
returned-conserves true n b b' h k = cc h
returned-conserves false n b b' h k = k.0

settled-conserves :
    (held : Bool) (n : ℕ) (b b' : Board)
    → b.closed ≡ false
    → IsSettled held (not b.closed) n b b'
    → b'.waits + b'.dead ≡ b.waits + b.dead
settled-conserves true n b b' o k = returned-conserves b.closed n b b' o k
settled-conserves false n b b' o k = omega (arith, k.0, k.1)

spec-conserves :
    (s : String) (c : Call) (b b' : Board)
    → gives_up_nothing c ≡ true
    → b.closed ≡ false
    → IsSpecStep s c b b'
    → (b'.closed ≡ false) × (b'.waits + b'.dead ≡ b.waits + b.dead + entered_by s c)
unfolding IsSpecStep IsBackground
spec-conserves s (Call.enqueue_call x p h n) b b' g o k = ground arith
spec-conserves s (Call.round_call f d t) b b' g o k =
    (k.0 ∙ o, omega (arith, quiet-conserves b.closed _ _ _ _ o k.1))
spec-conserves s (Call.resume_call n) b b' g o k = ground arith
spec-conserves s (Call.look_call f n) b b' g o k =
    (k.0 ∙ o, omega (arith, quiet-conserves b.closed _ _ _ _ o k.1))
spec-conserves s (Call.ack_call m) b b' g o k = cc
spec-conserves s (Call.nack_call m false h) b b' g o k = cc g
spec-conserves s (Call.nack_call m true h) b b' g o k =
    (k.0 ∙ o, omega (arith, settled-conserves (b.holds m.handle) _ b b' o k.1.1))
spec-conserves s Call.close_call b b' g o k = cc

-- Take any sequence of calls on an open queue in which no handle is used twice, by which the client
-- acknowledges nothing, gives no message back without a retry, and does not close the queue. For each
-- session the messages that wait, are in flight or are dead letters afterwards are as many as before
-- and as were enqueued.
pub no_message_lost :
    (s : String) {q q' : InMemoryQueueAdapter} {cs : List Call}
    → IsConsistent q
    → q.closed ≡ false
    → all gives_up_nothing cs ≡ true
    → Run q cs q'
    → outstanding s q' + buried s q' ≡ outstanding s q + buried s q + entered s cs
unfolding entered
no_message_lost s c o g Run.idle = omega arith
no_message_lost s c o g (Run.then {q} {q' = q1} {c = call} k r) =
    omega (arith, next.1, no_message_lost s kept next.0 (ground arith) r)
  where
    kept : IsConsistent q1
    kept = (queue-refines s c k).0

    next :
        (q1.closed ≡ false)
        × (outstanding s q1 + buried s q1 ≡ outstanding s q + buried s q + entered_by s call)
    next = spec-conserves s call (board s q) (board s q1) (ground arith) o (queue-refines s c k).1
