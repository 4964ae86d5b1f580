-- ===== src/Probes/Ping.antt =====
-- `_PING_TIME_RE` and `_parse_ping_time` of app/tasks/probes.py.
use Prim.Native.String.{String, [], ◌∷◌}
use Prim.Native.Char.{Char, code}
use ghostmon.Base.{ℕ, Bool, ◌&&◌, ◌||◌, not, Option, none, some, if◌then◌else◌, is_some, ◌==◌}
use ghostmon.Base.Texts.{is_empty, lstrip}

-- Python's `re` and `float`: characters that match whatever their case, the decimal digits `\d`, the
-- blanks `\s`, and the nearest number of a text (none: ValueError).
pub record Matching : Type 0 where
  pub same_letter : Char → Char → Bool
  pub is_decimal : Char → Bool
  pub is_blank : Char → Bool
  pub round_float : String → Option ℕ

module _ (m : Matching) where
  -- the rest after a word, whatever its case
  unfoldable pub after_word : String → String → Option String
  after_word [] s = some s
  after_word (c ∷ w) [] = none
  after_word (c ∷ w) (d ∷ s) = let rest = after_word w s in if m.same_letter c d then rest else none

  -- `[\d.]+`, greedily: the number and the rest
  unfoldable pub span_number : String → String × String
  span_number [] = ([], [])
  span_number (c ∷ s) =
      let (number, rest) = span_number s in
      if m.is_decimal c || code c == code "." then (c ∷ number, rest) else ([], c ∷ s)

  -- `[=<]([\d.]+)\s*ms`: the group; what is matched greedily is never given back, since neither a blank
  -- nor an `m` is part of a number
  unfoldable pub number_of_ms : String → Option String
  unfolding span_number after_word
  number_of_ms [] = none
  number_of_ms (c ∷ s) =
      let (number, rest) = span_number s in
      if (code c == code "=" || code c == code "<")
        && not (is_empty number)
        && is_some (after_word "ms" (lstrip m.is_blank rest))
      then some number
      else none

  -- the match at the beginning of the text
  unfoldable pub match_time : String → Option String
  unfolding after_word number_of_ms
  match_time s = elim (after_word "time" s) [ none ↦ none | some rest ↦ number_of_ms rest ]

  -- `search`: the first match
  unfoldable pub search_time : String → Option String
  unfolding match_time
  search_time [] = match_time []
  search_time (c ∷ s) =
      let later = search_time s in
      elim (match_time (c ∷ s)) [ some number ↦ some number | none ↦ later ]

  unfoldable pub parse_ping_time : String → Option ℕ
  unfolding search_time
  parse_ping_time output = elim (search_time output) [
    | none ↦ none
    | some number ↦ m.round_float number
  ]
