-- ===== src/Orchestration/Graph/Release.antt =====
-- One round of the sort: what the children of a key gain.
use hydra_mind.Prelude.{
  ℕ, zero, suc, ◌+◌, ◌≤◌, ℤ, pos, negsuc, String, ◌≡◌, refl, true, false, some, List, [], ◌∷◌, ◌++◌,
  arith, str_eq, eq_iff, if◌then◌else◌, one_if, length, Bool-cases, inl, inr,
}
use hydra_mind.Prelude.Dict.{Dict, get, put, get-put}
use hydra_mind.Orchestration.Graph.{
  Progress, degree, decrement, is_zero, insert_ready, insert_by_index, sort_by_index, roots,
  release, release_all, drain, children_of,
}
use hydra_mind.Orchestration.Graph.Degrees.{occurs}

insert_ready-occurs :
    (index : Dict ℕ) (c x : String) (ks : List String)
    → occurs x (insert_ready index c ks) ≡ one_if (str_eq c x) + occurs x ks
unfolding insert_ready occurs
insert_ready-occurs index c x [] = ground arith
insert_ready-occurs index c x (k ∷ ks) = ground (arith, insert_ready-occurs index c x ks)

insert_ready-length :
    (index : Dict ℕ) (c : String) (ks : List String)
    → length (insert_ready index c ks) ≡ suc (length ks)
unfolding insert_ready
insert_ready-length index c [] = refl
insert_ready-length index c (k ∷ ks) = ground (arith, insert_ready-length index c ks)

insert_by_index-occurs :
    (index : Dict ℕ) (c x : String) (ks : List String)
    → occurs x (insert_by_index index c ks) ≡ one_if (str_eq c x) + occurs x ks
unfolding insert_by_index occurs
insert_by_index-occurs index c x [] = ground arith
insert_by_index-occurs index c x (k ∷ ks) = ground (arith, insert_by_index-occurs index c x ks)

pub sort_by_index-occurs :
    (index : Dict ℕ) (x : String) (ks : List String)
    → occurs x (sort_by_index index ks) ≡ occurs x ks
unfolding sort_by_index occurs
sort_by_index-occurs index x [] = refl
sort_by_index-occurs index x (k ∷ ks) = ground (
  arith,
  insert_by_index-occurs index k x (sort_by_index index ks),
  sort_by_index-occurs index x ks,
)

insert_by_index-length :
    (index : Dict ℕ) (c : String) (ks : List String)
    → length (insert_by_index index c ks) ≡ suc (length ks)
unfolding insert_by_index
insert_by_index-length index c [] = refl
insert_by_index-length index c (k ∷ ks) = ground (arith, insert_by_index-length index c ks)

pub sort_by_index-length :
    (index : Dict ℕ) (ks : List String) → length (sort_by_index index ks) ≡ length ks
unfolding sort_by_index
sort_by_index-length index [] = refl
sort_by_index-length index (k ∷ ks) =
    ground (
      arith,
      insert_by_index-length index k (sort_by_index index ks),
      sort_by_index-length index ks,
    )

-- 1 when a key that had `o + m` requirements open loses `o` of them, and so its last one.
abbrev pub freed : ℕ → ℕ → ℕ
freed zero m = 0
freed (suc o) zero = 1
freed (suc o) (suc m) = 0

pub freed_le : (o m : ℕ) → freed o m ≤ 1
freed_le zero m = omega arith
freed_le (suc o) zero = omega arith
freed_le (suc o) (suc m) = omega arith

pub freed_only : (o m : ℕ) → 1 ≤ freed o m → (m ≡ 0) × (1 ≤ o)
freed_only zero m h = absurd (omega arith)
freed_only (suc o) zero h = (refl, omega arith)
freed_only (suc o) (suc m) h = absurd (omega arith)

pub freed_last : (o m : ℕ) → m ≡ 0 → 1 ≤ o → freed o m ≡ 1
freed_last zero m e h = absurd (omega arith)
freed_last (suc o) zero e h = refl
freed_last (suc o) (suc m) e h = absurd (omega arith)

-- A key that had as many requirements open as it has entries among the children, and `m` more.
pub record IsReleased (x : String) (o m : ℕ) (s s' : Progress) : Type 0 where
  pub left : degree s'.in_degree x ≡ pos m
  pub joined : occurs x s'.ready ≡ occurs x s.ready + freed o m

release-degree :
    (index : Dict ℕ) (c x : String) (s : Progress)
    → degree (release index c s).in_degree x
      ≡ (if str_eq c x then decrement (degree s.in_degree x) else degree s.in_degree x)
unfolding release
release-degree index c x s =
    ground (arith, get-put s.in_degree c x (decrement (degree s.in_degree c)), eq_iff c x)

release-ready :
    (index : Dict ℕ) (c x : String) (s : Progress)
    → occurs x (release index c s).ready
      ≡ (if is_zero (decrement (degree s.in_degree c)) then one_if (str_eq c x) else 0)
        + occurs x s.ready
unfolding release
release-ready index c x s = ground (arith, insert_ready-occurs index c x s.ready)

freed-suc : (o m : ℕ) → (if is_zero (pos (o + m)) then 1 else 0) + freed o m ≡ freed (suc o) m
freed-suc zero zero = ground arith
freed-suc zero (suc m) = ground arith
freed-suc (suc o) zero = ground arith
freed-suc (suc o) (suc m) = ground arith

pub release_all-IsReleased :
    (index : Dict ℕ) (x : String) (cs : List String) (s : Progress) (m : ℕ)
    → degree s.in_degree x ≡ pos (occurs x cs + m)
    → IsReleased x (occurs x cs) m s (release_all index cs s)
unfolding release_all occurs
release_all-IsReleased index x [] s m h = record { left = ground (arith, h); joined = omega arith }
release_all-IsReleased index x (c ∷ cs) s m h = elim (Bool-cases (str_eq c x)) [
  | inl same ↦ rw same (
      let rest = release_all-IsReleased index x cs (release index c s) m (lost same) in
      record {
        left = rest.left;
        joined = ground (arith, rest.joined, won same, freed-suc (occurs x cs) m);
      })
  | inr other ↦ rw other (
      let rest = release_all-IsReleased index x cs (release index c s) m (stays other) in
      record { left = rest.left; joined = ground (arith, rest.joined, release-ready index c x s) })
]
  where
    lost : str_eq c x ≡ true → degree (release index c s).in_degree x ≡ pos (occurs x cs + m)
    lost same = ground (arith, release-degree index c x s, h)

    won :
        str_eq c x ≡ true
        → occurs x (release index c s).ready
          ≡ (if is_zero (pos (occurs x cs + m)) then 1 else 0) + occurs x s.ready
    won same = ground (arith, release-ready index c x s, h, eq_iff c x)

    stays : str_eq c x ≡ false → degree (release index c s).in_degree x ≡ pos (occurs x cs + m)
    stays other = ground (arith, release-degree index c x s, h)

-- The entries above 0.
unfoldable pub positives : Dict ℤ → ℕ
positives [] = 0
positives ((k, pos zero) ∷ d) = positives d
positives ((k, pos (suc n)) ∷ d) = suc (positives d)
positives ((k, negsuc n) ∷ d) = positives d

pub roots-measure : (d : Dict ℤ) → length (roots d) + positives d ≤ length d
unfolding roots positives
roots-measure [] = omega arith
roots-measure ((k, pos zero) ∷ d) = omega (arith, roots-measure d)
roots-measure ((k, pos (suc n)) ∷ d) = omega (arith, roots-measure d)
roots-measure ((k, negsuc n) ∷ d) = omega (arith, roots-measure d)

positives-put :
    (d : Dict ℤ) (k : String)
    → one_if (is_zero (decrement (degree d k))) + positives (put d k (decrement (degree d k)))
      ≤ positives d
unfolding put positives get
positives-put [] k = omega arith
positives-put ((j, pos zero) ∷ d) k = ground (arith, positives-put d k)
positives-put ((j, pos (suc zero)) ∷ d) k = ground (arith, positives-put d k)
positives-put ((j, pos (suc (suc n))) ∷ d) k = ground (arith, positives-put d k)
positives-put ((j, negsuc n) ∷ d) k = ground (arith, positives-put d k)

abbrev measure : Progress → ℕ
measure s = length s.ready + positives s.in_degree

release-measure :
    (index : Dict ℕ) (c : String) (s : Progress) → measure (release index c s) ≤ measure s
unfolding release
release-measure index c s =
    ground (arith, insert_ready-length index c s.ready, positives-put s.in_degree c)

release_all-measure :
    (index : Dict ℕ) (cs : List String) (s : Progress)
    → measure (release_all index cs s) ≤ measure s
unfolding release_all
release_all-measure index [] s = omega arith
release_all-measure index (c ∷ cs) s =
    omega (arith, release_all-measure index cs (release index c s), release-measure index c s)

-- The loop as it is defined here, where a missing entry is read as a default, ends by its test and
-- gives an order when its fuel is more than the number of keys in `ready` and of keys with requirements
-- left. Ending shows that no entry is missing.
pub drain_enough :
    (fuel : ℕ) (index : Dict ℕ) (down : Dict (List String)) (order ready : List String) (d : Dict ℤ)
    → suc (length ready + positives d) ≤ fuel
    → (result : List String) × (drain fuel index down order
          (record { in_degree = d; ready = ready })
        ≡ some result)
unfolding drain
drain_enough zero index down order ready d h = absurd (omega arith)
drain_enough (suc fuel) index down order [] d h = (order, refl)
drain_enough (suc fuel) index down order (c ∷ ready) d h =
    drain_enough fuel index down (order ++ c ∷ []) after.ready after.in_degree
      (omega (arith, release_all-measure index (children_of down c) before))
  where
    before : Progress
    before = record { in_degree = d; ready = ready }

    after : Progress
    after = release_all index (children_of down c) before
