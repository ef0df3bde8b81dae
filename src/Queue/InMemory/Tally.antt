-- ===== src/Queue/InMemory/Tally.antt =====
-- How many messages of a session a queue holds, and what its operations do to that number.
use hydra_mind.Prelude.{
  one_if, ℕ, ◌+◌, ◌≤◌, String, ◌≡◌, refl, Bool, some, List, [], ◌∷◌, ◌++◌, arith, str_eq,
}
use hydra_mind.Prelude.Dict.{Dict, get, put, remove}
use hydra_mind.Queue.Contracts.{QueueMessage}
use hydra_mind.Queue.InMemory.{InFlightMessage, InMemoryQueueAdapter}
use hydra_mind.Prelude.Entries.{entries, remove-absent}

unfoldable pub count : (QueueMessage → Bool) → List QueueMessage → ℕ
count p [] = 0
count p (m ∷ ms) = one_if (p m) + count p ms

unfoldable pub tally : (QueueMessage → Bool) → Dict InFlightMessage → ℕ
tally p [] = 0
tally p ((h, held) ∷ d) = one_if (p held.message) + tally p d

abbrev pub of_session : String → QueueMessage → Bool
of_session s m = str_eq m.session_id s

abbrev pub has_handle : String → QueueMessage → Bool
has_handle h m = str_eq m.handle h

-- The messages of a session that wait or are in flight.
abbrev pub outstanding : String → InMemoryQueueAdapter → ℕ
outstanding s q = count (of_session s) q.queue + tally (of_session s) q.in_flight

abbrev pub buried : String → InMemoryQueueAdapter → ℕ
buried s q = count (of_session s) q.dead_letters

-- The uses of a handle.
abbrev pub uses : String → InMemoryQueueAdapter → ℕ
uses h q = count (has_handle h) q.queue + entries h q.in_flight

-- No handle is used twice.
abbrev pub IsConsistent : InMemoryQueueAdapter → Type 0
IsConsistent q = (h : String) → uses h q ≤ 1

pub count-append :
    (p : QueueMessage → Bool) (xs ys : List QueueMessage)
    → count p (xs ++ ys) ≡ count p xs + count p ys
unfolding count
count-append p [] ys = omega arith
count-append p (x ∷ xs) ys = omega (arith, count-append p xs ys)

pub count-snoc :
    (p : QueueMessage → Bool) (xs : List QueueMessage) (m : QueueMessage)
    → count p (xs ++ m ∷ []) ≡ count p xs + one_if (p m)
unfolding count
count-snoc p xs m = omega (arith, count-append p xs (m ∷ []))

module _ (p : QueueMessage → Bool) where
  pub tally-put :
      (d : Dict InFlightMessage) (k : String) (v : InFlightMessage)
      → entries k d ≡ 0
      → tally p (put d k v) ≡ one_if (p v.message) + tally p d
  unfolding entries put tally
  tally-put [] k v e = refl
  tally-put ((j, w) ∷ d) k v e = ground (arith, tally-put d k v)

  pub tally-remove :
      (d : Dict InFlightMessage) (k : String) (v : InFlightMessage)
      → get d k ≡ some v
      → entries k d ≤ 1
      → tally p d ≡ one_if (p v.message) + tally p (remove d k)
  unfolding entries get remove tally
  tally-remove [] k v g e = cc
  tally-remove ((j, w) ∷ d) k v g e = ground (arith, tally-remove d k v, remove-absent d k)
