-- ===== src/Prelude/Outcome.antt =====
-- The exceptions that the modelled code raises, and results that may be an exception. A message is
-- not part of an exception here: only its class is.
use mathlib.Core.Path.{◌≡◌, refl, ap}
use mathlib.Core.Logic.{◌⊎◌, inl, inr}
use mathlib.Core.Bool.{Bool, true, false, not}
use mathlib.Core.Option.{Option, none, some}

pub data Error : Type 0 where
  invalid_transition session_not_found node_not_found gate_not_found : Error
  execution_lease turn_lease store_conflict : Error
  value_error key_error runtime_error type_error : Error
  unexecuted_protocol graph_cycle : Error

pub data Result {ℓ} (A : Type ℓ) : Type ℓ where
  ok : A → Result A
  err : Error → Result A

-- `if test: raise e`
abbrev pub raise_if : Bool → Error → Result (Unit {0})
raise_if true e = err e
raise_if false e = ok tt

infixl 5 ◌>>◌
module _ {ℓ κ} {A : Type ℓ} {B : Type κ} where
  infixl 5 ◌>>=◌
  abbrev pub ◌>>=◌ : Result A → (A → Result B) → Result B
  err raised >>= next = err raised
  ok value >>= next = next value

  -- Inversion of a successful bind.
  pub >>=-eq-ok :
      (first : Result A) (next : A → Result B) {result : B}
      → (first >>= next) ≡ ok result
      → (value : A) × (first ≡ ok value) × (next value ≡ ok result)
  >>=-eq-ok (err raised) next h = cc
  >>=-eq-ok (ok value) next h = (value, refl, h)

  pub >>=-eq-err :
      (first : Result A) (next : A → Result B) {raised : Error}
      → (first >>= next) ≡ err raised
      → (first ≡ err raised) ⊎ ((value : A) × (first ≡ ok value) × (next value ≡ err raised))
  >>=-eq-err (err e) next h = inl (cc h)
  >>=-eq-err (ok value) next h = inr (value, refl, h)

abbrev pub ◌>>◌ {ℓ} : {B : Type ℓ} → Result (Unit {0}) → Result B → Result B
check >> rest = check >>= λ _. rest

-- `if not test: raise e`
abbrev pub guard : Bool → Error → Result (Unit {0})
guard test e = raise_if (not test) e

-- `if x is None: raise e`
abbrev pub or_raise {ℓ} : {A : Type ℓ} → Option A → Error → Result A
or_raise none e = err e
or_raise (some a) e = ok a

pub ok-injective {ℓ} : {A : Type ℓ} {a b : A} → ok a ≡ ok b → a ≡ b
ok-injective {A} {a} h = ap (value_or a) h
  where
    value_or : A → Result A → A
    value_or d (ok x) = x
    value_or d (err e) = d

pub Result-cases {ℓ} :
    {A : Type ℓ} (r : Result A) → ((a : A) × (r ≡ ok a)) ⊎ ((e : Error) × (r ≡ err e))
Result-cases (ok a) = inl (a, refl)
Result-cases (err e) = inr (e, refl)
