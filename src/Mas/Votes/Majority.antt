-- ===== src/Mas/Votes/Majority.antt =====
-- Who wins a majority vote.
use Prim.Native.Nat.{max}
use hydra_mind.Prelude.{
  ℕ, suc, ◌+◌, ◌≤◌, String, ◌≡◌, refl, sym, ap, ◌∙◌, Bool, true, false, not, ◌&&◌, ◌||◌, ◌⊎◌, inl,
  inr, Option, none, some, List, [], ◌∷◌, arith, str_eq, eq_iff, eq_refl, if◌then◌else◌, is_some,
  leb, leb→le, Bool-cases, ◌↔◌,
}
use hydra_mind.Prelude.Dict
use hydra_mind.Prelude.Dict.{Dict, get-put, get-empty}
use hydra_mind.Prelude.Sort.{mem_string, sort_strings, insert_sorted}
use hydra_mind.Mas.Contracts.{ArbitrationStrategy}
use hydra_mind.Mas.Votes.{
  MemberVoteRecord, VoteOutcome, or_zero, tally_votes, top_count, options_with, top_options,
  declare, build_vote_outcome,
}

-- The valid votes for an option.
unfoldable pub votes_for : String → List MemberVoteRecord → ℕ
votes_for o [] = 0
votes_for o (r ∷ rs) =
    let rest = votes_for o rs in if r.valid && str_eq r.canonical o then suc rest else rest

tally-counts :
    (votes : List MemberVoteRecord) (d : Dict ℕ) (o : String)
    → or_zero (Dict.get (tally_votes d votes) o) ≡ or_zero (Dict.get d o) + votes_for o votes
unfolding tally_votes votes_for
tally-counts [] d o = omega arith
tally-counts (r ∷ rs) d o = ground (
  arith,
  tally-counts rs d o,
  tally-counts rs (Dict.put d r.canonical (or_zero (Dict.get d r.canonical) + 1)) o,
  get-put d r.canonical o (or_zero (Dict.get d r.canonical) + 1),
  eq_iff r.canonical o,
)

-- No option has two entries.
unfoldable once_each : Dict ℕ → Bool
unfolding mem_string
once_each [] = true
once_each ((k, n) ∷ d) = not (is_some (Dict.get d k)) && once_each d

put-once :
    (d : Dict ℕ) (k : String) (n : ℕ) → once_each d ≡ true → once_each (Dict.put d k n) ≡ true
unfolding once_each Dict.put Dict.get
put-once [] k n h = refl
put-once ((j, m) ∷ d) k n h =
    ground (arith, put-once d k n, get-put d k j n, eq_iff j k, eq_iff k j)

tally-once :
    (votes : List MemberVoteRecord) (d : Dict ℕ)
    → once_each d ≡ true
    → once_each (tally_votes d votes) ≡ true
unfolding tally_votes
tally-once [] d h = h
tally-once (r ∷ rs) d h = ground (
  arith,
  tally-once rs d,
  tally-once rs (Dict.put d r.canonical (or_zero (Dict.get d r.canonical) + 1)),
  put-once d r.canonical (or_zero (Dict.get d r.canonical) + 1) h,
)

top-bounds : (d : Dict ℕ) (o : String) → or_zero (Dict.get d o) ≤ top_count d
unfolding top_count Dict.get
top-bounds [] o = omega arith
top-bounds ((k, n) ∷ d) o = ground (arith, top-bounds d o)

option-counts :
    (d : Dict ℕ) (c : ℕ) (o : String)
    → once_each d ≡ true
    → mem_string o (options_with c d) ≡ true
    → Dict.get d o ≡ some c
unfolding options_with Dict.get mem_string once_each
option-counts [] c o h k = cc k
option-counts ((j, n) ∷ d) c o h k = ground (arith, option-counts d c o, eq_iff j o)

counted-option :
    (d : Dict ℕ) (c : ℕ) (o : String)
    → Dict.get d o ≡ some c
    → mem_string o (options_with c d) ≡ true
unfolding options_with Dict.get mem_string
counted-option [] c o h = cc h
counted-option ((j, n) ∷ d) c o h = ground (arith, counted-option d c o, eq_refl j)

insert-mem :
    (x y : String) (ys : List String)
    → mem_string x (insert_sorted y ys) ≡ (str_eq y x || mem_string x ys)
unfolding insert_sorted mem_string
insert-mem x y [] = refl
insert-mem x y (z ∷ ys) = ground (arith, insert-mem x y ys)

sort-mem : (x : String) (ys : List String) → mem_string x (sort_strings ys) ≡ mem_string x ys
unfolding sort_strings mem_string
sort-mem x [] = refl
sort-mem x (y ∷ ys) = ground (arith, sort-mem x ys, insert-mem x y (sort_strings ys))

option-head : (k : String) (n : ℕ) (d : Dict ℕ) → mem_string k (options_with n ((k, n) ∷ d)) ≡ true
unfolding options_with mem_string
option-head k n d = ground (arith, eq_refl k)

option-tail :
    (o k : String) (c n : ℕ) (d : Dict ℕ)
    → mem_string o (options_with c d) ≡ true
    → mem_string o (options_with c ((k, n) ∷ d)) ≡ true
unfolding options_with mem_string
option-tail o k c n d h = ground arith

-- An option that has the top count.
top_exists :
    (k : String) (n : ℕ) (d : Dict ℕ)
    → (o : String) × (mem_string o (options_with (top_count ((k, n) ∷ d)) ((k, n) ∷ d)) ≡ true)
unfolding top_count
top_exists k n [] = let top : max n 0 ≡ n = omega arith in (k, rw top (option-head k n []))
top_exists k n ((j, m) ∷ d) =
    let (o, found) = top_exists j m d in
    elim (Bool-cases (leb (top_count ((j, m) ∷ d)) n)) [
      | inl high ↦
          let top : max n (max m (top_count d)) ≡ n =
            omega (arith, leb→le (top_count ((j, m) ∷ d)) n high) in
          (k, rw top (option-head k n ((j, m) ∷ d)))
      | inr low ↦
          let top : max n (max m (top_count d)) ≡ max m (top_count d) = ground (arith, low) in
          (o, rw top (option-tail o k (max m (top_count d)) n ((j, m) ∷ d) found))
    ]

top_somewhere : (d : Dict ℕ) → (d ≡ []) ⊎ ((o : String) × (mem_string o (top_options d) ≡ true))
unfolding top_options
top_somewhere [] = inl refl
top_somewhere ((k, n) ∷ d) =
    let (o, found) = top_exists k n d in
    inr (o, sort-mem o (options_with (top_count ((k, n) ∷ d)) ((k, n) ∷ d)) ∙ found)

-- An option is a top option exactly if its count is the top count.
top_options_iff :
    (d : Dict ℕ) (o : String)
    → once_each d ≡ true
    → (mem_string o (top_options d) ≡ true) ↔ (Dict.get d o ≡ some (top_count d))
unfolding top_options
top_options_iff d o once = (
  λ h. option-counts d (top_count d) o once (sym (sort-mem o (options_with (top_count d) d)) ∙ h),
  λ h. sort-mem o (options_with (top_count d) d) ∙ counted-option d (top_count d) o h,
)

-- What is declared for a list of top options that is not empty.
record IsWon (v : VoteOutcome) (tops : List String) (top : ℕ) (w : String) : Type 0 where
  won : v.winner ≡ some w
  count : v.winner_count ≡ top
  is_top : mem_string w tops ≡ true
  alone : (o : String) → v.tie ≡ false → mem_string o tops ≡ true → o ≡ w

declare-IsWon :
    (d : Dict ℕ) (votes : List MemberVoteRecord) (tops : List String) (o : String)
    → mem_string o tops ≡ true
    → (w : String) × IsWon (declare ArbitrationStrategy.majority d votes tops) tops (top_count d) w
unfolding declare mem_string
declare-IsWon d votes [] o h = cc h
declare-IsWon d votes (first ∷ []) o h = (
  first,
  record {
    won = refl;
    count = refl;
    is_top = ground (arith, eq_refl first);
    alone = λ o' t m. ground (arith, eq_iff first o');
  },
)
declare-IsWon d votes (first ∷ second ∷ rest) o h = (
  first,
  record {
    won = refl;
    count = refl;
    is_top = ground (arith, eq_refl first);
    alone = λ o' t m. cc t;
  },
)

-- The outcome `v` of `votes` has the winner `w`: no option has more valid votes than the winner
-- count, `w` has as many, and if no tie is declared no other option that got a vote has as many.
pub record IsMajority (votes : List MemberVoteRecord) (v : VoteOutcome) (w : String) : Type 0 where
  pub winner_is : v.winner ≡ some w
  pub winner_votes : votes_for w votes ≡ v.winner_count
  pub most : (o : String) → votes_for o votes ≤ v.winner_count
  pub no_other :
      (o : String)
      → v.tie ≡ false
      → 1 ≤ votes_for o votes
      → votes_for o votes ≡ v.winner_count
      → o ≡ w

some-counted : (o : Option ℕ) (n : ℕ) → 1 ≤ n → or_zero o ≡ n → o ≡ some n
some-counted none n h k = absurd (omega (arith, h, k))
some-counted (some m) n h k = ap some k

count-tally :
    (votes : List MemberVoteRecord) (o : String)
    → or_zero (Dict.get (tally_votes [] votes) o) ≡ votes_for o votes
count-tally votes o = ground (arith, tally-counts votes [] o, get-empty {V = ℕ} o)

no_votes :
    (votes : List MemberVoteRecord)
    → tally_votes [] votes ≡ []
    → (o : String) → votes_for o votes ≡ 0
no_votes votes h o = sym (count-tally votes o) ∙ rw (h, get-empty {V = ℕ} o) refl

no_tops : (d : Dict ℕ) → d ≡ [] → top_options d ≡ []
unfolding top_options options_with sort_strings top_count
no_tops [] h = refl
no_tops (x ∷ d) h = cc h

declare-none :
    (d : Dict ℕ) (votes : List MemberVoteRecord) (tops : List String)
    → tops ≡ []
    → (v : VoteOutcome) × (v ≡ declare ArbitrationStrategy.majority d votes tops)
      × (v.winner ≡ none)
      × (v.winner_count ≡ 0)
      × (v.tie ≡ false)
unfolding declare
declare-none d votes [] h =
    (declare ArbitrationStrategy.majority d votes [], refl, refl, refl, refl)
declare-none d votes (x ∷ xs) h = cc h

empty-once : once_each [] ≡ true
unfolding once_each
empty-once = refl

-- A majority vote without a valid vote has no winner, no tie and the winner count 0. Every other
-- one has a winner: an option with the winner count as its number of valid votes, and no option has
-- more. If no tie is declared, every option that has a valid vote and as many of them is the
-- winner.
pub majority_wins :
    (votes : List MemberVoteRecord)
    → (((o : String) → votes_for o votes ≡ 0)
        × ((build_vote_outcome votes ArbitrationStrategy.majority).winner ≡ none)
        × ((build_vote_outcome votes ArbitrationStrategy.majority).winner_count ≡ 0)
        × ((build_vote_outcome votes ArbitrationStrategy.majority).tie ≡ false))
      ⊎ ((w : String) × IsMajority votes (build_vote_outcome votes ArbitrationStrategy.majority) w)
unfolding build_vote_outcome
majority_wins votes =
    let d = tally_votes [] votes in
    let once = tally-once votes [] empty-once in
    elim (top_somewhere d) [
      | inl free ↦
          let (v, same, none_won, no_count, no_tie) =
            declare-none d votes (top_options d) (no_tops d free) in
          inl (
            no_votes votes free,
            ap (λ (u : VoteOutcome). u.winner) (sym same) ∙ none_won,
            ap (λ (u : VoteOutcome). u.winner_count) (sym same) ∙ no_count,
            ap (λ (u : VoteOutcome). u.tie) (sym same) ∙ no_tie,
          )
      | inr (o, top) ↦
          let (w, v) = declare-IsWon d votes (top_options d) o top in
          inr (
            w,
            record {
              winner_is = v.won;
              winner_votes =
                  sym (count-tally votes w)
                  ∙ ap or_zero ((top_options_iff d w once).0 v.is_top)
                  ∙ sym v.count;
              most = λ x. omega (arith, count-tally votes x, top-bounds d x, v.count);
              no_other = λ x t some_votes same. v.alone x t (
                  (top_options_iff d x once).1 (
                    some-counted (Dict.get d x) (top_count d)
                      (omega (arith, some_votes, same, v.count))
                      (count-tally votes x ∙ same ∙ v.count)));
            },
          )
    ]
