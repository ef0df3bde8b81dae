-- ===== src/Prelude/Exec.antt =====
-- Methods that write to a state and may raise. What was written before an exception stays written,
-- so the state comes back beside the exception too.
use hydra_mind.Prelude.Outcome.{Result, ok, err}

abbrev pub Exec : Type 0 → Type 0 → Type 0
Exec S A = S → Result A × S

module _ {S : Type 0} where
  pub pure : {A : Type 0} → A → Exec S A
  pure a s = (ok a, s)

  pub lift : {A : Type 0} → Result A → Exec S A
  lift r s = (r, s)

  abbrev pub continue : {A B : Type 0} → Result A → (A → Exec S B) → Exec S B
  continue (ok a) f s = f a s
  continue (err e) f s = (err e, s)

  infixl 5 ◌>>=◌ ◌>>◌
  -- Opening this opens `pure` and `lift` too.
  unfoldable pub ◌>>=◌ : {A B : Type 0} → Exec S A → (A → Exec S B) → Exec S B
  unfolding pure lift
  ◌>>=◌ m f s = let (r, s') = m s in continue r f s'

  abbrev pub ◌>>◌ : {A B : Type 0} → Exec S A → Exec S B → Exec S B
  m >> k = m >>= λ _. k
