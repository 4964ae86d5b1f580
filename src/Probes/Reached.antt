-- ===== src/Probes/Reached.antt =====
-- What the targets of app/tasks/probes.py that discovery writes are read as.
use Prim.Native.String.{String, [], ◌∷◌, ◌++◌}
use Prim.Native.String.append
use ghostmon.Base.{ℕ, ◌≡◌, refl, true, false, not, some, ok, ap, ◌∙◌}
use ghostmon.Base.Texts.{Unicode, is_empty, has_char, all_chars, contains, rpartition, show_nat}
use ghostmon.Base.Texts.Laws.{
  IsUnicode, all_chars-append, strip-clean, contains-scheme, has_char-append, rpartition-append,
  rpartition_absent, all_digits-show_nat, int_from-show_nat, spaces-show_nat, colon-show_nat,
  slash-show_nat,
}
use ghostmon.Probes.Targets.{
  Parsing, parse_tcp_target, tcp_host_port, int_of, parse_ssl_target, ssl_host_port,
  parse_ping_target, ping_host, or_none,
}

-- a host without blanks and slashes, and not empty
pub record IsPlain (u : Unicode) (host : String) : Type 0 where
  pub named : is_empty host ≡ false
  pub spaces : all_chars (λ c. not (u.is_space c)) host ≡ true
  pub slashes : has_char "/" host ≡ false

colon-append : (s : String) → ":" ++ s ≡ ":" ∷ s
colon-append s = append.cons ":" "" s ∙ ap (λ t. ":" ∷ t) (append.nil s)

is_empty-append : (s t : String) → is_empty s ≡ false → is_empty (s ++ t) ≡ false
is_empty-append [] t h = cc h
is_empty-append (c ∷ s) t h = rw append.cons refl

module _ (py : Parsing) (law : IsUnicode py.unicode) (host : String)
    (plain : IsPlain py.unicode host) (n : ℕ) where
  abbrev target : String
  target = host ++ ":" ++ show_nat n

  target_spaces : all_chars (λ c. not (py.unicode.is_space c)) target ≡ true
  unfolding all_chars
  target_spaces =
      rw
        (
          all_chars-append,
          all_chars-append,
          plain.spaces,
          spaces-show_nat py.unicode law n,
          law.colon,
        )
        refl

  target_scheme : contains "://" target ≡ false
  unfolding has_char
  target_scheme =
      contains-scheme target
        (rw (has_char-append, has_char-append, plain.slashes, slash-show_nat n) refl)

  target_parts : rpartition ":" target ≡ some (host, show_nat n)
  target_parts =
      rw (colon-append (show_nat n)) (rpartition-append ":" host (show_nat n) (colon-show_nat n))

  int_of-show_nat : int_of py (show_nat n) ≡ ok n
  unfolding int_of
  int_of-show_nat = rw (int_of, int_from-show_nat py.unicode law n) refl

  pub parse_tcp_target_lem : parse_tcp_target py target ≡ ok (some host, some n)
  unfolding parse_tcp_target tcp_host_port
  parse_tcp_target_lem =
      rw
        (
          strip-clean py.unicode.is_space target target_spaces,
          target_scheme,
          target_parts,
          plain.named,
          all_digits-show_nat py.unicode law n,
          int_of-show_nat,
        )
        refl

  pub parse_ssl_target_lem : parse_ssl_target py target ≡ ok (some host, n)
  unfolding parse_ssl_target ssl_host_port
  parse_ssl_target_lem =
      rw
        (
          strip-clean py.unicode.is_space target target_spaces,
          target_scheme,
          target_parts,
          plain.named,
          all_digits-show_nat py.unicode law n,
          int_of-show_nat,
        )
        refl

  named : is_empty target ≡ false
  named = is_empty-append host (":" ++ show_nat n) plain.named

  pub parse_ping_target_port : parse_ping_target py target ≡ ok (some host)
  unfolding parse_ping_target ping_host or_none
  parse_ping_target_port =
      rw
        (
          strip-clean py.unicode.is_space target target_spaces,
          named,
          target_scheme,
          target_parts,
          all_digits-show_nat py.unicode law n,
          plain.named,
        )
        refl

-- a host without a colon is pinged as it is
pub parse_ping_target_plain :
    (py : Parsing) (host : String)
    → IsPlain py.unicode host
    → has_char ":" host ≡ false
    → parse_ping_target py host ≡ ok (some host)
unfolding parse_ping_target ping_host
parse_ping_target_plain py host plain no_colon =
    rw
      (
        strip-clean py.unicode.is_space host plain.spaces,
        plain.named,
        contains-scheme host plain.slashes,
        rpartition_absent ":" host no_colon,
      )
      refl
