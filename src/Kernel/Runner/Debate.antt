-- ===== src/Kernel/Runner/Debate.antt =====
-- The order of a debate.
use hydra_mind.Prelude.{
  ℕ, zero, suc, ◌+◌, ◌*◌, ◌%◌, ◌≤◌, ◌<◌, String, ◌≡◌, refl, sym, ap, ◌∙◌, true, false, none, some,
  List, [], ◌∷◌, ◌++◌, ok, arith, length, length-append, get_elem?, leb, ltb, ltb→lt, Bool-cases,
  inl, inr, some-injective, eq_iff,
}
use hydra_mind.Prelude.Sort.{mem_string}
use native.Mathlib.Nat.{mod-lt, zero-lt-suc}
use hydra_mind.Mas.Contracts.{debate_rounds}
use hydra_mind.Kernel.Contracts.{Interaction, Turn, acted_agent_ids}
use hydra_mind.Kernel.Scheduler.{Strategy, next_turn, debate_next, pending_turn}
use hydra_mind.Kernel.Runner.{run_turns, record_member_message}
use hydra_mind.Kernel.Runner.Plan.{acted-record, run_none}

get_elem?-append :
    (xs : List String) (y : String) (k : ℕ)
    → k < length xs
    → get_elem? (xs ++ y ∷ []) k ≡ get_elem? xs k
get_elem?-append [] y k h = absurd (omega (arith, h))
get_elem?-append (x ∷ xs) y zero h = refl
get_elem?-append (x ∷ xs) y (suc k) h = get_elem?-append xs y k (omega (arith, h))

get_elem?-last : (xs : List String) (y : String) → get_elem? (xs ++ y ∷ []) (length xs) ≡ some y
get_elem?-last [] y = refl
get_elem?-last (x ∷ xs) y = get_elem?-last xs y

get_elem?-in : (xs : List String) (k : ℕ) → k < length xs → (x : String) × (get_elem? xs k ≡ some x)
get_elem?-in [] k h = absurd (omega (arith, h))
get_elem?-in (x ∷ xs) zero h = (x, refl)
get_elem?-in (x ∷ xs) (suc k) h = get_elem?-in xs k (omega (arith, h))

get_elem?-mem :
    (xs : List String) (k : ℕ) (x : String) → get_elem? xs k ≡ some x → mem_string x xs ≡ true
unfolding mem_string
get_elem?-mem [] k x h = cc h
get_elem?-mem (y ∷ xs) zero x h = ground (arith, some-injective h, eq_iff y x)
get_elem?-mem (y ∷ xs) (suc k) x h = ground (arith, get_elem?-mem xs k x h)

leb_of_le : (a b : ℕ) → a ≤ b → leb a b ≡ true
leb_of_le a b h = ground arith

leb_of_gt : (a b : ℕ) → suc b ≤ a → leb a b ≡ false
leb_of_gt a b h = ground arith

module _ (reply : Turn → String) (rounds : ℕ) (m : String) (ms : List String) where
  -- Turn `k` was the one of member `k` modulo their number.
  record IsOrdered (i : Interaction) : Type 0 where
    members : i.member_ids ≡ m ∷ ms
    configured : debate_rounds i.protocol ≡ ok rounds
    counted : length i.turns ≤ rounds * suc (length ms)
    measured : length (acted_agent_ids i) ≡ length i.turns
    ordered :
        (k : ℕ)
        → k < length i.turns
        → get_elem? (acted_agent_ids i) k ≡ get_elem? (m ∷ ms) (k % suc (length ms))

  debate_ends :
      (i : Interaction)
      → IsOrdered i
      → length i.turns ≡ rounds * suc (length ms)
      → next_turn Strategy.debate i ≡ ok none
  unfolding next_turn debate_next
  debate_ends i p full =
      let done : leb (rounds * suc (length ms)) (length i.turns) ≡ true =
        leb_of_le _ _ (omega (arith, full)) in
      rw (p.members, debate_next) (rw (p.configured) (ground (arith, done)))

  debate_goes :
      (i : Interaction)
      → IsOrdered i
      → suc (length i.turns) ≤ rounds * suc (length ms)
      → (x : String) × (get_elem? (m ∷ ms) (length i.turns % suc (length ms)) ≡ some x)
        × (next_turn Strategy.debate i ≡ ok (some (pending_turn i x)))
  unfolding next_turn debate_next
  debate_goes i p room =
      let more : leb (rounds * suc (length ms)) (length i.turns) ≡ false = leb_of_gt _ _ room in
      let (x, at_index) =
        get_elem?-in (m ∷ ms) (length i.turns % suc (length ms))
          (mod-lt (length i.turns) (zero-lt-suc (length ms))) in
      (
        x,
        at_index,
        rw (p.members, debate_next) (rw (p.configured) (ground (arith, more, at_index))),
      )

  ordered_append :
      (xs : List String) (x : String) (k n : ℕ)
      → length xs ≡ n
      → ((j : ℕ) → j < n → get_elem? xs j ≡ get_elem? (m ∷ ms) (j % suc (length ms)))
      → get_elem? (m ∷ ms) (n % suc (length ms)) ≡ some x
      → k < suc n
      → get_elem? (xs ++ x ∷ []) k ≡ get_elem? (m ∷ ms) (k % suc (length ms))
  ordered_append xs x k n same old new below = elim (Bool-cases (ltb k n)) [
    | inl early ↦ get_elem?-append xs x k (rw same (ltb→lt k n early)) ∙ old k (ltb→lt k n early)
    | inr late ↦
        let last : k ≡ n = ground (arith, late, below) in
        rw last (rw (sym same) (get_elem?-last xs x) ∙ sym new)
  ]

  IsOrdered-step :
      (i : Interaction) (x content : String)
      → IsOrdered i
      → suc (length i.turns) ≤ rounds * suc (length ms)
      → get_elem? (m ∷ ms) (length i.turns % suc (length ms)) ≡ some x
      → IsOrdered (record_member_message i (pending_turn i x) content)
  unfolding record_member_message
  IsOrdered-step i x content p room at_index =
      let acted = acted-record i (pending_turn i x) content in
      record {
        members = p.members;
        configured = p.configured;
        counted = omega (arith, length-append i.turns (_ ∷ []), room);
        measured = omega (
          arith,
          ap (λ (xs : List String). length xs) acted,
          length-append (acted_agent_ids i) (x ∷ []),
          length-append i.turns (_ ∷ []),
          p.measured,
        );
        ordered = λ k h. rw acted (
            ordered_append (acted_agent_ids i) x k (length i.turns) p.measured p.ordered at_index
              (omega (arith, h, length-append i.turns (_ ∷ []))));
      }

  debate_rest :
      (left fuel : ℕ) (i : Interaction)
      → IsOrdered i
      → length i.turns + left ≡ rounds * suc (length ms)
      → left ≤ fuel
      → (j : Interaction) × (run_turns fuel reply Strategy.debate i ≡ ok j)
        × IsOrdered j
        × (length j.turns ≡ rounds * suc (length ms))
  unfolding run_turns record_member_message
  debate_rest zero fuel i p all enough =
      let full : length i.turns ≡ rounds * suc (length ms) = omega (arith, all) in
      (i, run_none fuel reply Strategy.debate i (debate_ends i p full), p, full)
  debate_rest (suc left) zero i p all enough = absurd (omega (arith, enough))
  debate_rest (suc left) (suc fuel) i p all enough =
      let room : suc (length i.turns) ≤ rounds * suc (length ms) = omega (arith, all) in
      let (x, at_index, next) = debate_goes i p room in
      let t = pending_turn i x in
      let (j, ran, q, full) =
        debate_rest left fuel (record_member_message i t (reply t))
          (IsOrdered-step i x (reply t) p room at_index)
          (omega (arith, all, length-append i.turns (_ ∷ []))) (omega (arith, enough)) in
      let member : mem_string x i.member_ids ≡ true =
        rw p.members (get_elem?-mem (m ∷ ms) (length i.turns % suc (length ms)) x at_index) in
      (j, rw next (rw member ran), q, full)

-- A debate of the members `m ∷ ms` over a number of rounds that the protocol allows, begun without
-- a turn and run with fuel for at least that number times the number of members, ends: there are
-- exactly that many turns, turn `k` is the one of the member at `k` modulo the number of members,
-- and the strategy has no next turn.
pub debate_runs_rounds :
    (reply : Turn → String) (rounds : ℕ) (m : String) (ms : List String) (i : Interaction)
    (fuel : ℕ)
    → i.member_ids ≡ m ∷ ms
    → debate_rounds i.protocol ≡ ok rounds
    → i.turns ≡ []
    → rounds * suc (length ms) ≤ fuel
    → (j : Interaction) × (run_turns fuel reply Strategy.debate i ≡ ok j)
      × (length j.turns ≡ rounds * suc (length ms))
      × ((k : ℕ)
          → k < rounds * suc (length ms)
          → get_elem? (acted_agent_ids j) k ≡ get_elem? (m ∷ ms) (k % suc (length ms)))
      × (next_turn Strategy.debate j ≡ ok none)
debate_runs_rounds reply rounds m ms i fuel members configured fresh enough =
    let none_yet : length i.turns ≡ 0 = ap (λ (ts : List Turn). length ts) fresh in
    let (j, ran, p, full) =
      debate_rest reply rounds m ms (rounds * suc (length ms)) fuel i
        (record {
          members = members;
          configured = configured;
          counted = omega (arith, none_yet);
          measured = rw fresh refl;
          ordered = λ k h. absurd (omega (arith, none_yet, h));
        })
        (omega (arith, none_yet)) enough in
    (
      j,
      ran,
      full,
      (λ k h. p.ordered k (omega (arith, h, full))),
      debate_ends reply rounds m ms j p full,
    )
