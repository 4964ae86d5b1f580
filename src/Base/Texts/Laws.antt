-- ===== src/Base/Texts/Laws.antt =====
-- Splitting, stripping and reading the texts of ghostmon.Base.Texts.
use Prim.Native.String.{String, [], ◌∷◌, ◌++◌}
use Prim.Native.String.append
use Prim.Native.Char.{Char, code}
use ghostmon.Base.{
  ℕ, zero, suc, ◌+◌, ◌/◌, ◌%◌, ◌≡◌, refl, Bool, true, false, not, ◌&&◌, ◌||◌, none, some, ◌==◌, ltb,
  ◌≤◌, ◌<◌, Bool-cases, inl, inr, arith, ==_refl, if◌then◌else◌,
}
use ghostmon.Base.Texts.{
  is_empty, has_char, all_chars, starts_with, contains, rpartition, lstrip, rstrip, strip, Unicode,
  all_digits, int_from, digit, digits, show_nat,
}

-- What the Unicode database says of the ASCII digits and of the colon.
pub record IsUnicode (u : Unicode) : Type 0 where
  pub is_digit-digit : (d : ℕ) → u.is_digit (digit d) ≡ true
  pub is_space-digit : (d : ℕ) → u.is_space (digit d) ≡ false
  pub decimal-digit : (d : ℕ) → d < 10 → u.decimal (digit d) ≡ some d
  pub colon : u.is_space ":" ≡ false

module _ (p : Char → Bool) where
  pub all_chars-append : (s t : String) → all_chars p (s ++ t) ≡ (all_chars p s && all_chars p t)
  unfolding all_chars
  all_chars-append [] t = rw append.nil refl
  all_chars-append (c ∷ s) t = rw append.cons (ground (arith, all_chars-append s t))

-- a text without blanks is not stripped
module _ (p : Char → Bool) where
  lstrip-clean : (s : String) → all_chars (λ c. not (p c)) s ≡ true → lstrip p s ≡ s
  unfolding lstrip all_chars
  lstrip-clean [] h = refl
  lstrip-clean (c ∷ s) h = ground (arith, h)

  rstrip-clean : (s : String) → all_chars (λ c. not (p c)) s ≡ true → rstrip p s ≡ s
  unfolding rstrip all_chars
  rstrip-clean [] h = refl
  rstrip-clean (c ∷ s) h = ground (arith, h, rstrip-clean s)

  pub strip-clean : (s : String) → all_chars (λ c. not (p c)) s ≡ true → strip p s ≡ s
  unfolding strip
  strip-clean s h = rw (rstrip-clean s h) (lstrip-clean s h)

-- a text without a slash has no scheme
pub contains-scheme : (s : String) → has_char "/" s ≡ false → contains "://" s ≡ false
unfolding contains has_char starts_with
contains-scheme [] h = refl
contains-scheme (c ∷ []) h = ground (arith, h)
contains-scheme (c ∷ d ∷ s) h = ground (arith, h, contains-scheme (d ∷ s))

pub has_char-append :
    (c : Char) (s t : String) → has_char c (s ++ t) ≡ (has_char c s || has_char c t)
unfolding has_char
has_char-append c [] t = rw append.nil refl
has_char-append c (d ∷ s) t = rw append.cons (ground (arith, has_char-append c s t))

pub rpartition_absent : (c : Char) (s : String) → has_char c s ≡ false → rpartition c s ≡ none
unfolding rpartition has_char
rpartition_absent c [] h = refl
rpartition_absent c (d ∷ s) h = ground (arith, h, rpartition_absent c s)

-- the last separator is found
pub rpartition-append :
    (c : Char) (s t : String) → has_char c t ≡ false → rpartition c (s ++ c ∷ t) ≡ some (s, t)
unfolding rpartition
rpartition-append c [] t h = rw (append.nil, rpartition_absent c t h) (rw (==_refl (code c)) refl)
rpartition-append c (d ∷ s) t h = rw append.cons (rw (rpartition, rpartition-append c s t h) refl)

ltb→no : (n : ℕ) → ltb n 10 ≡ false → 10 ≤ n
ltb→no n h = ground arith

-- what is written is read
pub int_from-digits :
    (u : Unicode) (law : IsUnicode u) (fuel n : ℕ) (s : String)
    → n < fuel
    → int_from u 0 (digits fuel n s) ≡ int_from u n s
unfolding digits int_from
int_from-digits u law zero n s h = ground arith
int_from-digits u law (suc fuel) n s h = elim (Bool-cases (ltb n 10)) [
  | inl e ↦ rw e (ground (arith, e, law.decimal-digit n))
  | inr e ↦
      rw
        (e, int_from-digits u law fuel (n / 10) (digit (n % 10) ∷ s) (omega (arith, h, ltb→no n e)))
        (ground (arith, law.decimal-digit (n % 10)))
]

all_chars-digits :
    (p : Char → Bool)
    → ((d : ℕ) → p (digit d) ≡ true)
    → (fuel n : ℕ) (s : String) → all_chars p (digits fuel n s) ≡ all_chars p s
unfolding digits all_chars
all_chars-digits p h zero n s = refl
all_chars-digits p h (suc fuel) n s =
    ground (arith, h n, h (n % 10), all_chars-digits p h fuel (n / 10) (digit (n % 10) ∷ s))

has_char-digits :
    (c : Char)
    → ((d : ℕ) → (code c == code (digit d)) ≡ false)
    → (fuel n : ℕ) (s : String) → has_char c (digits fuel n s) ≡ has_char c s
unfolding digits has_char
has_char-digits c h zero n s = refl
has_char-digits c h (suc fuel) n s =
    ground (arith, h n, h (n % 10), has_char-digits c h fuel (n / 10) (digit (n % 10) ∷ s))

code_if : (b : Bool) (c d : Char) → code (if b then c else d) ≡ (if b then code c else code d)
code_if true c d = refl
code_if false c d = refl

pub code-digit : (d : ℕ) → d < 10 → code (digit d) ≡ 48 + d
unfolding digit
code-digit d h = simp code_if (ground arith)

pub code-digit_range : (d : ℕ) → (48 ≤ code (digit d)) × (code (digit d) ≤ 57)
unfolding digit
code-digit_range d = simp code_if (ground arith)

-- no digit is a colon or a slash
pub colon-digit : (d : ℕ) → (58 == code (digit d)) ≡ false
colon-digit d = ground (arith, code-digit_range d)

pub slash-digit : (d : ℕ) → (47 == code (digit d)) ≡ false
slash-digit d = ground (arith, code-digit_range d)

is_empty-digits :
    (fuel n : ℕ) (s : String) → is_empty s ≡ false → is_empty (digits fuel n s) ≡ false
unfolding digits
is_empty-digits zero n s h = h
is_empty-digits (suc fuel) n s h =
    ground (arith, is_empty-digits fuel (n / 10) (digit (n % 10) ∷ s))

is_empty-show_nat : (n : ℕ) → is_empty (show_nat n) ≡ false
unfolding show_nat digits
is_empty-show_nat n = ground (arith, is_empty-digits n (n / 10) (digit (n % 10) ∷ []))

-- what `str` writes of a number is read by `isdigit` and `int`, and has no separator in it
module _ (u : Unicode) (law : IsUnicode u) (n : ℕ) where
  pub all_digits-show_nat : all_digits u (show_nat n) ≡ true
  unfolding all_digits show_nat all_chars
  all_digits-show_nat =
      ground
        (arith, is_empty-show_nat n, all_chars-digits u.is_digit law.is_digit-digit (suc n) n [])

  pub int_from-show_nat : int_from u 0 (show_nat n) ≡ some n
  unfolding show_nat int_from
  int_from-show_nat = int_from-digits u law (suc n) n [] (omega arith)

  pub spaces-show_nat : all_chars (λ c. not (u.is_space c)) (show_nat n) ≡ true
  unfolding show_nat all_chars
  spaces-show_nat =
      all_chars-digits (λ c. not (u.is_space c)) (λ d. rw (law.is_space-digit d) refl) (suc n) n []

pub colon-show_nat : (n : ℕ) → has_char ":" (show_nat n) ≡ false
unfolding show_nat has_char
colon-show_nat n = has_char-digits ":" colon-digit (suc n) n []

pub slash-show_nat : (n : ℕ) → has_char "/" (show_nat n) ≡ false
unfolding show_nat has_char
slash-show_nat n = has_char-digits "/" slash-digit (suc n) n []
