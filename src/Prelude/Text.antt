-- ===== src/Prelude/Text.antt =====
-- Python's `str.strip` and the truth of an optional text.
use Prim.Native.Char.{Char, code}
use Prim.Native.String.{String, ◌++◌}
use Prim.Native.Nat.{ℕ, zero, suc, ◌/◌, ◌%◌}
use mathlib.Core.Bool.{Bool, false, not, ◌&&◌, ◌||◌}
use mathlib.Core.Option.{Option, none, some}
use text.Mathlib.Text.{◌==◌ as str_eq}
use mathlib.Core.Bool.{false≢true}
use mathlib.Core.Path.{◌≡◌, sym, ap, ◌∙◌}
use mathlib.Core.Logic.{inl, inr}
use text.Mathlib.TextEquality.{eq_iff}
use hydra_mind.Prelude.Tests.{ltb, Bool-cases, leb, ◌==◌, if◌then◌else◌}

-- `ch.isspace()`, by the code points that Python lists as white space.
unfoldable pub is_space : Char → Bool
is_space ch =
    let c = code ch in
    leb 9 c && leb c 13
    || leb 28 c && leb c 32
    || c == 0x85
    || c == 0xA0
    || c == 0x1680
    || leb 0x2000 c && leb c 0x200A
    || c == 0x2028
    || c == 0x2029
    || c == 0x202F
    || c == 0x205F
    || c == 0x3000

unfoldable pub strip_left : String → String
unfolding is_space
strip_left String.[] = ""
strip_left (String.◌∷◌ c s) = let rest = strip_left s in if is_space c then rest else String.◌∷◌ c s

-- Drops a character only when it and all that follow are white space.
unfoldable pub strip_right : String → String
unfolding is_space
strip_right String.[] = ""
strip_right (String.◌∷◌ c s) =
    let rest = strip_right s in if is_space c && str_eq rest "" then "" else String.◌∷◌ c rest

-- s.strip()
unfoldable pub strip : String → String
unfolding strip_left strip_right
strip s = strip_left (strip_right s)

-- `bool(s)` for a text that may be None.
abbrev pub truthy : Option String → Bool
truthy none = false
truthy (some s) = not (str_eq s "")

-- A text that is not blank is not empty.
pub not_blank : (s : String) → str_eq (strip s) "" ≡ false → str_eq s "" ≡ false
unfolding strip
not_blank s h = elim (Bool-cases (str_eq s "")) [
  | inl e ↦ absurd (false≢true (sym h ∙ (eq_iff (strip s) "").1 (ap strip ((eq_iff s "").0 e))))
  | inr e ↦ e
]

-- The decimal digit of a number below 10.
unfoldable pub digit : ℕ → String
digit n =
    if n == 0
    then "0"
    else if n == 1
    then "1"
    else if n == 2
    then "2"
    else if n == 3
    then "3"
    else if n == 4
    then "4"
    else if n == 5
    then "5"
    else if n == 6
    then "6"
    else if n == 7
    then "7"
    else if n == 8
    then "8"
    else "9"

-- The digits of `n`; the fuel is above `n`, and each round divides it by ten.
unfoldable pub digits_of : ℕ → ℕ → String
unfolding digit
digits_of zero n = ""
digits_of (suc fuel) n =
    let front = digits_of fuel (n / 10) in if ltb n 10 then digit n else front ++ digit (n % 10)

-- str(n)
unfoldable pub decimal : ℕ → String
unfolding digits_of
decimal n = digits_of (suc n) n
