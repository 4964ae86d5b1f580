-- ===== src/Base/Texts.antt =====
-- Python's operations on texts. What the Unicode database says of a character is a parameter.
pub mod Laws
use Prim.Native.Nat.{ℕ, zero, suc, ◌+◌, ◌*◌, ◌/◌, ◌%◌}
use Prim.Native.String.{String, [], ◌∷◌, ◌++◌}
use Prim.Native.Char.{Char, code}
use mathlib.Core.Bool.{Bool, true, false, not, ◌&&◌, ◌||◌}
use mathlib.Core.Option.{Option, none, some}
use ghostmon.Base.Tests.{◌==◌, ltb, if◌then◌else◌}

abbrev pub is_empty : String → Bool
is_empty [] = true
is_empty (c ∷ s) = false

unfoldable pub has_char : Char → String → Bool
has_char c [] = false
has_char c (d ∷ s) = code c == code d || has_char c s

unfoldable pub all_chars : (Char → Bool) → String → Bool
all_chars p [] = true
all_chars p (c ∷ s) = p c && all_chars p s

unfoldable pub starts_with : String → String → Bool
starts_with [] s = true
starts_with (c ∷ p) [] = false
starts_with (c ∷ p) (d ∷ s) = code c == code d && starts_with p s

-- `p in s`
unfoldable pub contains : String → String → Bool
unfolding starts_with
contains p [] = starts_with p []
contains p (c ∷ s) = starts_with p (c ∷ s) || contains p s

-- the two sides of the last `c`, or `none` where there is none
unfoldable pub rpartition : Char → String → Option (String × String)
rpartition c [] = none
rpartition c (d ∷ s) =
    let here : Option (String × String) = if code c == code d then some ([], s) else none in
    elim (rpartition c s) [ none ↦ here | some (head, tail) ↦ some (d ∷ head, tail) ]

unfoldable pub lstrip : (Char → Bool) → String → String
lstrip p [] = []
lstrip p (c ∷ s) = let rest = lstrip p s in if p c then rest else c ∷ s

unfoldable pub rstrip : (Char → Bool) → String → String
rstrip p [] = []
rstrip p (c ∷ s) = let rest = rstrip p s in if p c && is_empty rest then [] else c ∷ rest

unfoldable pub strip : (Char → Bool) → String → String
unfolding lstrip rstrip
strip p s = lstrip p (rstrip p s)

-- `isspace` and `isdigit` of a character, and its value in `int` of a text (none: ValueError)
pub record Unicode : Type 0 where
  pub is_space : Char → Bool
  pub is_digit : Char → Bool
  pub decimal : Char → Option ℕ

-- `isdigit` of a text
unfoldable pub all_digits : Unicode → String → Bool
unfolding all_chars
all_digits u s = not (is_empty s) && all_chars u.is_digit s

-- `int` of a text that passed `isdigit`, after the digits that gave `n`
unfoldable pub int_from : Unicode → ℕ → String → Option ℕ
int_from u n [] = some n
int_from u n (c ∷ s) = elim (u.decimal c) [ none ↦ none | some d ↦ int_from u (n * 10 + d) s ]

unfoldable pub digit : ℕ → Char
digit n =
    if n == 0
    then "0"
    else if n == 1
    then "1"
    else if n == 2
    then "2"
    else if n == 3
    then "3"
    else if n == 4
    then "4"
    else if n == 5
    then "5"
    else if n == 6
    then "6"
    else if n == 7
    then "7"
    else if n == 8
    then "8"
    else "9"

-- the digits of `n` before `s`; the fuel is more than `n`
unfoldable pub digits : ℕ → ℕ → String → String
unfolding digit
digits zero n s = s
digits (suc fuel) n s =
    let more = digits fuel (n / 10) (digit (n % 10) ∷ s) in if ltb n 10 then digit n ∷ s else more

-- `str` of a number
unfoldable pub show_nat : ℕ → String
unfolding digits
show_nat n = digits (suc n) n []
