-- ===== src/Prelude/Sort.antt =====
-- Python's `sorted` on texts, and sets of texts as lists.
use Prim.Native.String.{String, compare}
use Prim.Native.Nat.{Ordering}
use mathlib.Core.Bool.{Bool, true, false, ◌||◌}
use mathlib.Core.List.{List, [], ◌∷◌, ◌++◌}
use text.Mathlib.Text.{◌==◌ as str_eq}
use hydra_mind.Prelude.Tests.{if◌then◌else◌}

-- `a <= b` on texts, by code points
abbrev pub string_leb : String → String → Bool
string_leb a b = elim (compare a b) [ Ordering.gt ↦ false | _ ↦ true ]

unfoldable pub insert_sorted : String → List String → List String
insert_sorted x [] = x ∷ []
insert_sorted x (y ∷ ys) =
    let rest = insert_sorted x ys in if string_leb x y then x ∷ y ∷ ys else y ∷ rest

-- sorted(xs)
unfoldable pub sort_strings : List String → List String
unfolding insert_sorted
sort_strings [] = []
sort_strings (x ∷ xs) = insert_sorted x (sort_strings xs)

-- x in xs
unfoldable pub mem_string : String → List String → Bool
mem_string x [] = false
mem_string x (y ∷ ys) = str_eq y x || mem_string x ys

-- xs - ys
unfoldable pub difference : List String → List String → List String
unfolding mem_string
difference [] ys = []
difference (x ∷ xs) ys = let rest = difference xs ys in if mem_string x ys then rest else x ∷ rest

-- set(xs): the last of equal texts is kept
unfoldable pub to_set : List String → List String
unfolding mem_string
to_set [] = []
to_set (x ∷ xs) = let rest = to_set xs in if mem_string x xs then rest else x ∷ rest

-- xs | ys
unfoldable pub union : List String → List String → List String
unfolding difference
union xs ys = xs ++ difference ys xs
