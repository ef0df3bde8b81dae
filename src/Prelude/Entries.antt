-- ===== src/Prelude/Entries.antt =====
-- How many entries a dictionary has under a key.
use Prim.Native.Nat.{ℕ, ◌+◌, ◌≤◌}
use Prim.Native.String.{String}
use mathlib.Core.Path.{◌≡◌, refl}
use mathlib.Core.Logic.{inl, inr}
use mathlib.Core.Bool.{Bool}
use mathlib.Core.Option.{none, some}
use mathlib.Core.List.{List, [], ◌∷◌}
use native.Mathlib.Omega.{arith}
use text.Mathlib.Text.{◌==◌ as str_eq}
use text.Mathlib.TextEquality.{eq_iff}
use text.Mathlib.TextPositions.{eq_refl}
use hydra_mind.Prelude.Tests.{one_if, if◌then◌else◌, Bool-cases, ◌==◌}
use hydra_mind.Prelude.Lists.{keep, All}
use hydra_mind.Prelude.Dict.{Dict, get, put, remove, get-remove}

module _ {ℓ} {V : Type ℓ} where
  -- The entries of a key.
  unfoldable pub entries : String → Dict V → ℕ
  entries h [] = 0
  entries h ((k, v) ∷ d) = one_if (str_eq k h) + entries h d

  pub get-absent : (d : Dict V) (h : String) → entries h d ≡ 0 → get d h ≡ none
  unfolding entries get
  get-absent [] h e = refl
  get-absent ((k, v) ∷ d) h e = ground (arith, get-absent d h)

  pub entries_absent : (d : Dict V) (h : String) → get d h ≡ none → entries h d ≡ 0
  unfolding entries get
  entries_absent [] h e = refl
  entries_absent ((k, v) ∷ d) h e = ground (arith, entries_absent d h)

  pub entries-put :
      (d : Dict V) (k h : String) (v : V)
      → entries k d ≡ 0
      → entries h (put d k v) ≡ one_if (str_eq k h) + entries h d
  unfolding entries put
  entries-put [] k h v e = refl
  entries-put ((j, w) ∷ d) k h v e = ground (arith, entries-put d k h v)

  pub put-entries :
      (d : Dict V) (k h : String) (v : V)
      → entries h (put d k v)
        ≡ (if str_eq k h then (if entries h d == 0 then 1 else entries h d) else entries h d)
  unfolding entries put
  put-entries [] k h v = ground arith
  put-entries ((j, w) ∷ d) k h v =
      ground (arith, put-entries d k h v, eq_iff j k, eq_iff j h, eq_iff k h)

  pub entries-remove : (d : Dict V) (k h : String) → entries h (remove d k) ≤ entries h d
  unfolding entries remove
  entries-remove [] k h = omega arith
  entries-remove ((j, w) ∷ d) k h = ground (arith, entries-remove d k h)

  pub entries-removed : (d : Dict V) (k : String) → entries k (remove d k) ≡ 0
  unfolding entries remove
  entries-removed [] k = refl
  entries-removed ((j, w) ∷ d) k = ground (arith, entries-removed d k)

  pub remove-absent : (d : Dict V) (k : String) → entries k d ≡ 0 → remove d k ≡ d
  unfolding entries remove
  remove-absent [] k e = refl
  remove-absent ((j, w) ∷ d) k e = ground (arith, remove-absent d k)

  pub entries-keep :
      (p : String × V → Bool) (d : Dict V) (h : String) → entries h (keep p d) ≤ entries h d
  unfolding entries
  entries-keep p [] h = omega arith
  entries-keep p ((k, v) ∷ d) h = ground (arith, entries-keep p d h)

  -- Each entry of the list is what the dictionary has under its key.
  abbrev pub AreHeld : Dict V → List (String × V) → Type ℓ
  AreHeld d = All (λ e. get d e.0 ≡ some e.1)

  AreHeld-cons :
      (d : Dict V) (j : String) (w : V) (l : List (String × V))
      → entries j l ≡ 0
      → AreHeld d l
      → AreHeld ((j, w) ∷ d) l
  unfolding entries get
  AreHeld-cons d j w [] e h = tt
  AreHeld-cons d j w ((k, v) ∷ l) e h =
      (ground (arith, eq_iff j k, eq_refl k, h.0), AreHeld-cons d j w l (ground arith) h.1)

  pub AreHeld-all : (d : Dict V) → ((h : String) → entries h d ≤ 1) → AreHeld d d
  unfolding entries get
  AreHeld-all [] u = tt
  AreHeld-all ((j, w) ∷ d) u = (
    ground (arith, eq_refl j),
    AreHeld-cons d j w d (ground (arith, u j, eq_refl j))
        (AreHeld-all d (λ h. ground (arith, u h))),
  )

  pub AreHeld-keep :
      (p : String × V → Bool) (d : Dict V) (l : List (String × V))
      → AreHeld d l
      → AreHeld d (keep p l)
  AreHeld-keep p d [] h = tt
  AreHeld-keep p d (e ∷ l) h = elim (Bool-cases (p e)) [
    | inl kept ↦ rw kept (h.0, AreHeld-keep p d l h.1)
    | inr gone ↦ rw gone (AreHeld-keep p d l h.1)
  ]

  pub AreHeld-remove :
      (d : Dict V) (k : String) (l : List (String × V))
      → entries k l ≡ 0
      → AreHeld d l
      → AreHeld (remove d k) l
  unfolding entries
  AreHeld-remove d k [] e h = tt
  AreHeld-remove d k ((j, v) ∷ l) e h = (
    ground (arith, get-remove d k j, eq_iff j k, eq_iff k j, h.0),
    AreHeld-remove d k l (ground arith) h.1,
  )
