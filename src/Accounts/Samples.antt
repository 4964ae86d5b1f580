-- ===== src/Accounts/Samples.antt =====
-- An instance of the libraries that ghostmon.Accounts takes: tallies for numbers, and a token that is not
-- signed.
use Prim.Native.String.{[], ◌∷◌}
use Prim.Native.Char.{Char, code}
use ghostmon.Base.{
  ℕ, zero, suc, ◌≡◌, refl, ap, arith, Bool, true, false, ◌&&◌, String, Option, none, some, str_eq,
  str_eq_refl, eq_iff, Bool-cases, inl, inr, Option-cases, leb, ◌==◌, ok, raised, other,
  if◌then◌else◌, leb→le,
}
use ghostmon.Base.Texts.{is_empty}
use ghostmon.Accounts.{Secrecy, IsSecrecy, Jwt, IsJwt, Claims}

abbrev tally : ℕ → String → String
tally zero rest = "." ∷ rest
tally (suc n) rest = "|" ∷ tally n rest

abbrev count : String → Option (ℕ × String)
count [] = none
count (c ∷ s) =
    if code c == code "."
    then some (0, s)
    else (elim (count s) [ none ↦ none | some (n, rest) ↦ some (suc n, rest) ])

count-tally : (n : ℕ) (rest : String) → count (tally n rest) ≡ some (n, rest)
count-tally zero rest = refl
count-tally (suc n) rest = rw (count-tally n rest) refl

filled_by : (c : Char) (s : String) → str_eq (c ∷ s) "" ≡ false
filled_by c s = elim (Bool-cases (str_eq (c ∷ s) "")) [
  | inr e ↦ e
  | inl e ↦ cc (ap is_empty ((eq_iff (c ∷ s) "").0 e))
]

filled : (n : ℕ) (rest : String) → str_eq (tally n rest) "" ≡ false
filled zero rest = filled_by "." rest
filled (suc n) rest = filled_by "|" (tally n rest)

abbrev tally_of : Option ℕ → String → String
tally_of none rest = "n" ∷ rest
tally_of (some n) rest = "s" ∷ tally n rest

abbrev count_of : String → Option (Option ℕ × String)
count_of [] = none
count_of (c ∷ s) =
    if code c == code "n"
    then some (none, s)
    else (elim (count s) [ none ↦ none | some (n, rest) ↦ some (some n, rest) ])

count_of-tally_of : (o : Option ℕ) (rest : String) → count_of (tally_of o rest) ≡ some (o, rest)
count_of-tally_of none rest = refl
count_of-tally_of (some n) rest = rw (count-tally n rest) refl

abbrev text_of : Option String → String
text_of none = "n"
text_of (some s) = "s" ∷ s

abbrev read_text : String → Option String
read_text [] = none
read_text (c ∷ s) = if code c == code "n" then none else some s

read_text_of : (o : Option String) → read_text (text_of o) ≡ o
read_text_of none = refl
read_text_of (some s) = refl

abbrev decode : String → Option Claims
decode token = elim (count_of token) [
  | none ↦ none
  | some (iat, rest) ↦ elim (count_of rest) [
    | none ↦ none
    | some (exp, sub) ↦ some (record { sub = read_text sub; iat = iat; exp = exp })
  ]
]

abbrev pub plain : Secrecy
plain = record {
  lower = λ s. s;
  hash = λ salt s. "$" ∷ s;
  verify = λ hashed s. elim hashed [ [] ↦ raised other | c ∷ h ↦ ok (str_eq h s) ];
  show_uuid = λ i. tally i "";
  parse_uuid = λ s. elim (count s) [ none ↦ none | some (n, rest) ↦ some n ];
}

abbrev pub unsigned : Jwt
unsigned = record {
  encode = λ claims. tally_of claims.iat (tally_of claims.exp (text_of claims.sub));
  decode = decode;
  validate = λ now claims. elim claims.exp [
    | none ↦ false
    | some e ↦ leb now e && elim claims.iat [ none ↦ true | some i ↦ leb i now ]
  ];
}

pub plain-IsSecrecy : IsSecrecy plain
plain-IsSecrecy = record {
  verify-hash = λ salt s. ap ok (str_eq_refl s);
  hash-filled = λ salt s. filled_by "$" s;
  parse-show = λ i. rw (plain, count-tally i "") refl;
  show-filled = λ i. filled i "";
}

decode-encoded : (claims : Claims) → unsigned.decode (unsigned.encode claims) ≡ some claims
decode-encoded claims =
    rw
      (
        unsigned,
        decode,
        count_of-tally_of claims.iat (tally_of claims.exp (text_of claims.sub)),
        count_of-tally_of claims.exp (text_of claims.sub),
        read_text_of claims.sub,
      )
      refl

earlier :
    (iat : Option ℕ) (b : Bool) (now : ℕ)
    → (b && elim iat [ none ↦ true | some i ↦ leb i now ]) ≡ true
    → b ≡ true
earlier iat true now h = refl
earlier iat false now h = cc h

pub unsigned-IsJwt : IsJwt unsigned
unsigned-IsJwt = record {
  decode-encode = decode-encoded;
  unexpired = λ now claims h. elim (Option-cases claims.exp) [
    | inl e ↦ cc (rw e at h)
    | inr (x, e) ↦ (x, e, leb→le now x (earlier claims.iat (leb now x) now (rw (unsigned, e) at h)))
  ];
  accepts = λ now iat exp sub h h'. ground arith;
}
