-- ===== src/Probes/Samples.antt =====
-- A platform for the tests: ASCII, a resolver and a URL with a bad port.
use Prim.Native.Char.{Char, code}
use ghostmon.Base.{
  ◌-◌, refl, Bool, true, false, ◌&&◌, none, some, [], ◌∷◌, leb, ◌==◌, str_eq, if◌then◌else◌, ok,
  arith,
}
use ghostmon.Base.Texts.{Unicode}
use ghostmon.Base.Texts.Laws.{IsUnicode, code-digit, code-digit_range}
use ghostmon.Ssrf.{Address, Egress}
use ghostmon.Probes.{Platform}
use ghostmon.Probes.Targets.{Parsing, Url, bad_port}
use ghostmon.Probes.Answers.{
  Network, HttpAnswer, TcpAnswer, TlsAnswer, PingAnswer, SnmpAnswer, success,
}

abbrev ascii_digit : Char → Bool
ascii_digit c = leb 48 (code c) && leb (code c) 57

abbrev pub ascii : Unicode
ascii = record {
  is_space = λ c. code c == 32;
  is_digit = ascii_digit;
  decimal = λ c. if ascii_digit c then some (code c - 48) else none;
}

pub ascii-IsUnicode : IsUnicode ascii
ascii-IsUnicode = record {
  is_digit-digit = λ d. ground (arith, code-digit_range d);
  is_space-digit = λ d. ground (arith, code-digit_range d);
  decimal-digit = λ d h. ground (arith, code-digit d h);
  colon = refl;
}

abbrev pub bad_url : Url
bad_url = record { hostname = some "db"; port = bad_port; username = none; path = "" }

abbrev pub parsing : Parsing
parsing = record { unicode = ascii; urlparse = λ s. ok bad_url }

abbrev pub public_ip : Address
public_ip = record {
  is_private = false;
  is_loopback = false;
  is_link_local = false;
  is_reserved = false;
  is_multicast = false;
  is_unspecified = false;
}

abbrev pub private_ip : Address
private_ip = record public_ip { is_private = true }

-- "10.0.0.9" and "10.0.0.8" are literals, and "db" resolves to a public and a private address
abbrev pub egress : Egress
egress = record {
  block_private = true;
  ip_address = λ s.
      if str_eq s "10.0.0.9"
      then some private_ip
      else if str_eq s "8.8.8.8"
      then some public_ip
      else none;
  getaddrinfo = λ s. some ("8.8.8.8" ∷ "10.0.0.9" ∷ []);
}

abbrev pub platform : Platform
platform = record {
  egress = egress;
  parsing = parsing;
  matching = record {
    same_letter = λ a b. code a == code b;
    is_decimal = ascii_digit;
    is_blank = λ c. code c == 32;
    round_float = λ s. some 3;
  };
  repr = λ s. s;
  url_host = λ s. ok s;
  cert_time = λ s. some 900_000_000_000_000;
}

-- the same without the policy
abbrev pub open_platform : Platform
open_platform = record platform { egress = record egress { block_private = false } }

-- a network in which everything answers
abbrev pub network : Network
network = record {
  http_get = λ follow url. HttpAnswer.response 200 12;
  open_connection = λ host port. TcpAnswer.connected 5;
  open_tls = λ host port. TlsAnswer.connected 9 (some (record { not_after = some "Apr" }));
  ping = λ host. PingAnswer.finished success "64 bytes: time=3 ms" "";
  snmp_latency = 4;
  snmp_get = λ host port community oid. SnmpAnswer.failed "timeout";
}
