-- ===== src/Control/TurnLease/Turns.antt =====
-- Looking up a turn after a turn has been replaced or appended.
use hydra_mind.Prelude.{
  ℕ, ◌≡◌, Option, none, some, List, [], ◌∷◌, ◌++◌, arith, find_first, ◌==◌, str_eq, String, eq_refl,
}
use hydra_mind.Control.Interactions.{DurableTurn, DurableMessage}
use hydra_mind.Control.TurnLease.{replace_turns}

abbrev pub turn_at : List DurableTurn → ℕ → Option DurableTurn
turn_at ts index = find_first (λ t. t.turn_index == index) ts

pub turn_at-replace :
    (ts : List DurableTurn) (t u : DurableTurn) (index : ℕ)
    → turn_at ts index ≡ some u
    → t.turn_index ≡ index
    → turn_at (replace_turns ts t) index ≡ some t
unfolding replace_turns
turn_at-replace [] t u index found same = cc
turn_at-replace (x ∷ xs) t u index found same = ground (arith, turn_at-replace xs t u index)

pub turn_at-index :
    (ts : List DurableTurn) (t : DurableTurn) (index : ℕ)
    → turn_at ts index ≡ some t
    → t.turn_index ≡ index
turn_at-index [] t index found = cc
turn_at-index (x ∷ xs) t index found = ground (arith, turn_at-index xs t index)

pub turn_at-append :
    (ts : List DurableTurn) (t : DurableTurn) (index : ℕ)
    → turn_at ts index ≡ none
    → t.turn_index ≡ index
    → turn_at (ts ++ t ∷ []) index ≡ some t
turn_at-append [] t index free same = ground arith
turn_at-append (x ∷ xs) t index free same = ground (arith, turn_at-append xs t index)

pub message-append :
    (ms : List DurableMessage) (m : DurableMessage) (id : String)
    → find_first (λ x. str_eq x.id id) ms ≡ none
    → m.id ≡ id
    → find_first (λ x. str_eq x.id id) (ms ++ m ∷ []) ≡ some m
message-append [] m id free same = ground (arith, eq_refl id)
message-append (x ∷ xs) m id free same = ground (arith, message-append xs m id)
