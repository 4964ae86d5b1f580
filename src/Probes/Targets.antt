-- ===== src/Probes/Targets.antt =====
-- app/tasks/probes.py: reading the target of a monitor.
use Prim.Native.String.{String, ◌++◌}
use Prim.Native.Char.{Char, code}
use ghostmon.Base.{
  ℕ, Bool, ◌&&◌, ◌||◌, not, Option, none, some, get_or, is_set, if◌then◌else◌, ◌==◌, Result, ok,
  raised, other, ◌>>=◌,
}
use ghostmon.Base.Texts.{
  Unicode, is_empty, contains, rpartition, lstrip, strip, all_digits, int_from,
}

-- `port` of a parsed URL; reading a bad one is a ValueError
pub data Port : Type 0 where
  no_port bad_port : Port
  port : ℕ → Port

-- what is read of what `urlparse` gives
pub record Url : Type 0 where
  pub hostname : Option String
  pub port : Port
  pub username : Option String
  pub path : String

-- The standard library, for the targets: the Unicode database and `urlparse`, which may raise a
-- ValueError.
pub record Parsing : Type 0 where
  pub unicode : Unicode
  pub urlparse : String → Result Url

-- the attribute `port`
unfoldable pub port_of : Port → Result (Option ℕ)
port_of no_port = ok none
port_of bad_port = raised other
port_of (port n) = ok (some n)

-- `port or d`
unfoldable pub port_or : ℕ → Option ℕ → ℕ
port_or d none = d
port_or d (some n) = if n == 0 then d else n

-- `s or d`, of a text or None
unfoldable pub text_or : String → Option String → String
text_or d o = if is_set o then get_or o d else d

-- `s or None`
unfoldable pub or_none : String → Option String
or_none s = if is_empty s then none else some s

pub record SnmpTarget : Type 0 where
  pub host : String
  pub port : ℕ
  pub community : String
  pub oid : String

abbrev pub default_snmp_community : String
default_snmp_community = "public"

abbrev pub default_snmp_oid : String
default_snmp_oid = "1.3.6.1.2.1.1.3.0"

abbrev is_slash : Char → Bool
is_slash c = code c == code "/"

module _ (py : Parsing) where
  abbrev pub strip_text : String → String
  strip_text raw = strip py.unicode.is_space raw

  -- `int` of a text that passed `isdigit`
  unfoldable pub int_of : String → Result ℕ
  int_of s = elim (int_from py.unicode 0 s) [ none ↦ raised other | some n ↦ ok n ]

  -- the target of a parsed `snmp://` URL
  unfoldable pub snmp_target : Url → Result (Option SnmpTarget)
  unfolding port_of port_or text_or
  snmp_target parsed = elim parsed.hostname [
    | none ↦ ok none
    | some host ↦ do
      p ← port_of parsed.port
      ok (
          some (record {
            host = host;
            port = port_or 161 p;
            community = text_or default_snmp_community parsed.username;
            oid = text_or default_snmp_oid (some (lstrip is_slash parsed.path));
          }))
  ]

  -- `_parse_snmp_target`
  unfoldable pub parse_snmp_target : String → Result (Option SnmpTarget)
  unfolding snmp_target
  parse_snmp_target raw =
      let candidate = strip_text raw in
      let full = if contains "://" candidate then candidate else "snmp://" ++ candidate in
      if is_empty candidate then ok none else do parsed ← py.urlparse full; snmp_target parsed

  -- `_parse_tcp_target` of a candidate without a scheme
  unfoldable pub tcp_host_port : Option (String × String) → Result (Option String × Option ℕ)
  unfolding int_of
  tcp_host_port none = ok (none, none)
  tcp_host_port (some (host, port_str)) =
      if is_empty host || not (all_digits py.unicode port_str)
      then ok (none, none)
      else (do n ← int_of port_str; ok (some host, some n))

  unfoldable pub parse_tcp_target : String → Result (Option String × Option ℕ)
  unfolding tcp_host_port port_of
  parse_tcp_target raw =
      let candidate = strip_text raw in
      if contains "://" candidate
      then (do parsed ← py.urlparse candidate; p ← port_of parsed.port; ok (parsed.hostname, p))
      else tcp_host_port (rpartition ":" candidate)

  -- `_parse_ssl_target` of a candidate with a colon and no scheme
  unfoldable pub ssl_host_port : String × String → Result (Option String × ℕ)
  unfolding int_of
  ssl_host_port (host, port_str) =
      if not (is_empty host) && all_digits py.unicode port_str
      then (do n ← int_of port_str; ok (some host, n))
      else ok (none, 443)

  unfoldable pub parse_ssl_target : String → Result (Option String × ℕ)
  unfolding ssl_host_port port_of port_or or_none
  parse_ssl_target raw =
      let candidate = strip_text raw in
      if contains "://" candidate
      then (do
        parsed ← py.urlparse candidate
        p ← port_of parsed.port
        ok (parsed.hostname, port_or 443 p))
      else elim (rpartition ":" candidate) [
        | none ↦ ok (or_none candidate, 443)
        | some parts ↦ ssl_host_port parts
      ]

  -- the port of a ping target is dropped
  unfoldable pub ping_host : String → Option (String × String) → Option String
  unfolding or_none
  ping_host candidate none = some candidate
  ping_host candidate (some (host, port_str)) =
      if all_digits py.unicode port_str then or_none host else some candidate

  unfoldable pub parse_ping_target : String → Result (Option String)
  unfolding ping_host
  parse_ping_target raw =
      let candidate = strip_text raw in
      if is_empty candidate
      then ok none
      else if contains "://" candidate
      then (do parsed ← py.urlparse candidate; ok parsed.hostname)
      else ok (ping_host candidate (rpartition ":" candidate))
