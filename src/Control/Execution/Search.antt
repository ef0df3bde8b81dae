-- ===== src/Control/Execution/Search.antt =====
-- The search for an attempt after a write to the attempt that it finds.
use hydra_mind.Prelude.{
  ℕ, String, ◌≡◌, Bool, true, some, List, [], ◌∷◌, ok, arith, inl, inr, find_first, modify_first,
  Bool-cases, Option-cases,
}
use hydra_mind.Prelude.Dict.{Dict}
use hydra_mind.Control.Models.{NodeAttempt, NodeState}
use hydra_mind.Control.Execution.{has_id, find_attempt, write_attempt}

pub find_first-modify_first {ℓ} :
    {A : Type ℓ} (p : A → Bool) (b : A) (xs : List A) {a : A}
    → p b ≡ true
    → find_first p xs ≡ some a
    → find_first p (modify_first p (λ _. b) xs) ≡ some b
find_first-modify_first p b [] hb h = cc
find_first-modify_first p b (x ∷ xs) hb h = elim (Bool-cases (p x)) [
  | inl e ↦ rw e (rw hb)
  | inr e ↦ rw e (rw e (find_first-modify_first p b xs hb (rw e at h)))
]

-- A later search finds the written attempt, in a node whose other fields are the old ones.
pub find_attempt-write_attempt :
    (d : Dict NodeState) (execution_id : String) (b : NodeAttempt) (now : ℕ) {a : NodeAttempt}
    {n : NodeState}
    → has_id execution_id b ≡ true
    → find_attempt d execution_id ≡ ok (a, n)
    → (m : NodeState) × (find_attempt (write_attempt d execution_id b now) execution_id ≡ ok (b, m))
      × (m.status ≡ n.status)
unfolding find_attempt write_attempt
find_attempt-write_attempt [] execution_id b now hb h = cc
find_attempt-write_attempt ((k, x) ∷ d) execution_id b now {a} {n} hb h =
    elim (Option-cases (find_first (has_id execution_id) x.attempts)) [
      | inl e ↦
          let (m, found, same) =
            find_attempt-write_attempt d execution_id b now hb (rw (e, find_attempt) at h) in
          (m, rw (e, write_attempt) (rw (e, find_attempt) found), same)
      | inr (a', e) ↦
          let same : ok (a', x) ≡ ok (a, n) = rw (e, find_attempt) at h in
          (
            record x {
              attempts = modify_first (has_id execution_id) (λ _. b) x.attempts;
              updated_at = now;
            },
            rw (e, write_attempt)
                (rw
                  (find_first-modify_first (has_id execution_id) b x.attempts hb e, find_attempt)),
            ground (arith, same),
          )
    ]

pub find_first_test {ℓ} :
    {A : Type ℓ} (p : A → Bool) (xs : List A) {a : A} → find_first p xs ≡ some a → p a ≡ true
find_first_test p [] h = cc
find_first_test p (x ∷ xs) h = elim (Bool-cases (p x)) [
  | inl e ↦ ground (arith, rw e at h)
  | inr e ↦ find_first_test p xs (rw e at h)
]

pub find_attempt-has_id :
    (d : Dict NodeState) (execution_id : String) {a : NodeAttempt} {n : NodeState}
    → find_attempt d execution_id ≡ ok (a, n)
    → has_id execution_id a ≡ true
unfolding find_attempt
find_attempt-has_id [] execution_id h = cc
find_attempt-has_id ((k, x) ∷ d) execution_id {a} {n} h = ground (
  arith,
  find_attempt-has_id d execution_id {a = a} {n = n},
  find_first_test (has_id execution_id) x.attempts {a = a},
)
