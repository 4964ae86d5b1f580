-- ===== src/Probes.antt =====
-- app/tasks/probes.py: the five probes.
pub mod Targets
pub mod Answers
pub mod Ping
pub mod Blocked
pub mod Verdicts
pub mod Reached
pub mod Samples
mod Tests
use Prim.Native.String.{◌++◌}
use ghostmon.Base.{
  ℕ, ◌+◌, ◌-◌, ◌/◌, Bool, true, false, ◌&&◌, ◌||◌, not, String, Option, none, some, List, [], ◌∷◌,
  leb, ltb, ◌==◌, str_eq, if◌then◌else◌, days, get_or, is_set, Result, ok, raised, other, ◌>>=◌,
}
use ghostmon.Base.Texts.{is_empty, strip, show_nat}
use ghostmon.Model.Monitor.{Monitor, MonitorType, ProbeStatus}
use ghostmon.Scheduler.Retries.{ProbeOutcome}
use ghostmon.Ssrf.{Egress, target_allowed}
use ghostmon.Probes.Targets.{
  Parsing, SnmpTarget, parse_tcp_target, parse_ssl_target, parse_ping_target, parse_snmp_target,
  text_or,
}
use ghostmon.Probes.Answers.{
  HttpAnswer, TcpAnswer, TlsAnswer, Certificate, ReturnCode, success, exited, signalled, PingAnswer,
  SnmpAnswer, SnmpReply, Network,
}
use ghostmon.Probes.Ping.{Matching, parse_ping_time}

-- What the probes read of the platform: the egress policy, the parsing of targets and of ping's
-- output, `repr` of a text, the host of httpx's URL (InvalidURL is not caught), and the timestamp of a
-- certificate's time, `_parse_cert_time` (none: ValueError).
pub record Platform : Type 0 where
  pub egress : Egress
  pub parsing : Parsing
  pub matching : Matching
  pub repr : String → String
  pub url_host : String → Result String
  pub cert_time : String → Option ℕ

abbrev pub down : Option ℕ → String → ProbeOutcome
down latency error = record { status = ProbeStatus.down; latency_ms = latency; error = some error }

abbrev pub up : Option ℕ → Option String → ProbeOutcome
up latency warning = record { status = ProbeStatus.up; latency_ms = latency; error = warning }

abbrev pub blocked : ProbeOutcome
blocked = down none "target blocked by egress policy"

abbrev pub ssl_expiry_warning_days : ℕ
ssl_expiry_warning_days = 14

-- `_egress_guard`, before the rest of a probe
unfoldable pub guarded : Platform → String → Result ProbeOutcome → Result ProbeOutcome
guarded p host probe = if target_allowed p.egress host then probe else ok blocked

unfoldable pub http_outcome : HttpAnswer → Result ProbeOutcome
http_outcome HttpAnswer.timeout = ok (down none "timeout")
http_outcome (HttpAnswer.http_error exc) = ok (down none ("http error: " ++ exc))
http_outcome (HttpAnswer.uncaught e) = raised e
http_outcome (HttpAnswer.response code latency) = ok (
    if leb 200 code && ltb code 400
    then up (some latency) none
    else down (some latency) ("HTTP " ++ show_nat code))

unfoldable pub probe_http : Platform → Network → String → Result ProbeOutcome
unfolding guarded http_outcome
probe_http p net url = do
  host ← p.url_host url
  guarded p host (http_outcome (net.http_get (not p.egress.block_private) url))

unfoldable pub tcp_outcome : TcpAnswer → Result ProbeOutcome
tcp_outcome TcpAnswer.timeout = ok (down none "timeout")
tcp_outcome (TcpAnswer.os_error exc) = ok (down none ("connect error: " ++ exc))
tcp_outcome (TcpAnswer.uncaught e) = raised e
tcp_outcome (TcpAnswer.connected latency) = ok (up (some latency) none)

unfoldable pub probe_tcp_target :
    Platform → Network → String → Option String × Option ℕ → Result ProbeOutcome
unfolding guarded tcp_outcome
probe_tcp_target p net url (some host, some port) =
    guarded p host (tcp_outcome (net.open_connection host port))
probe_tcp_target p net url _ =
    ok (
      down none
        ("invalid tcp target: " ++ p.repr url ++ " (expected host:port or tcp://host:port)"))

unfoldable pub probe_tcp : Platform → Network → String → Result ProbeOutcome
unfolding probe_tcp_target
probe_tcp p net url = do target ← parse_tcp_target p.parsing url; probe_tcp_target p net url target

-- `delta_days` of a certificate that has not expired, and how many days ago one has: the floor of the
-- difference in days, and of its negation
unfoldable pub expiry_outcome : ℕ → ℕ → ℕ → ProbeOutcome
expiry_outcome latency now expiry =
    let left = (expiry - now) / days 1 in
    let ago = (now - expiry + (days 1 - 1)) / days 1 in
    if ltb expiry now
    then down (some latency) ("certificate expired " ++ show_nat ago ++ " day(s) ago")
    else up (some latency) (
        if leb left ssl_expiry_warning_days
        then some ("certificate expires in " ++ show_nat left ++ " day(s)")
        else none)

unfoldable pub not_after_outcome : Platform → ℕ → ℕ → String → ProbeOutcome
unfolding expiry_outcome
not_after_outcome p now latency not_after = elim (p.cert_time not_after) [
  | none ↦ down (some latency) ("unparseable notAfter: " ++ p.repr not_after)
  | some expiry ↦ expiry_outcome latency now expiry
]

unfoldable pub certificate_outcome : Platform → ℕ → ℕ → Option Certificate → ProbeOutcome
unfolding not_after_outcome
certificate_outcome p now latency none = down (some latency) "peer did not present a certificate"
certificate_outcome p now latency (some cert) =
    if is_set cert.not_after
    then not_after_outcome p now latency (get_or cert.not_after "")
    else down (some latency) "certificate is missing notAfter"

unfoldable pub tls_outcome : Platform → ℕ → TlsAnswer → Result ProbeOutcome
unfolding certificate_outcome
tls_outcome p now TlsAnswer.timeout = ok (down none "timeout")
tls_outcome p now (TlsAnswer.tls_error exc) = ok (down none ("tls error: " ++ exc))
tls_outcome p now (TlsAnswer.os_error exc) = ok (down none ("connect error: " ++ exc))
tls_outcome p now (TlsAnswer.uncaught e) = raised e
tls_outcome p now (TlsAnswer.connected latency cert) = ok (certificate_outcome p now latency cert)

unfoldable pub probe_ssl_target :
    Platform → Network → ℕ → String → Option String × ℕ → Result ProbeOutcome
unfolding guarded tls_outcome
probe_ssl_target p net now url (none, port) = ok (
    down none (
      "invalid ssl target: " ++ p.repr url ++ " (expected host, host:port or https://host[:port])"))
probe_ssl_target p net now url (some host, port) =
    guarded p host (tls_outcome p now (net.open_tls host port))

unfoldable pub probe_ssl : Platform → Network → ℕ → String → Result ProbeOutcome
unfolding probe_ssl_target
probe_ssl p net now url = do
  target ← parse_ssl_target p.parsing url
  probe_ssl_target p net now url target

abbrev pub show_code : ReturnCode → String
show_code success = "0"
show_code (exited n) = show_nat n
show_code (signalled n) = "-" ++ show_nat n

unfoldable pub exit_outcome : Platform → ReturnCode → String → String → ProbeOutcome
exit_outcome p success stdout stderr = up (parse_ping_time p.matching stdout) none
exit_outcome p code stdout stderr =
    let err = strip p.parsing.unicode.is_space stderr in
    down none (text_or ("ping exited with code " ++ show_code code) (some err))

unfoldable pub ping_outcome : Platform → PingAnswer → Result ProbeOutcome
unfolding exit_outcome
ping_outcome p PingAnswer.no_binary = ok (down none "ping binary not found")
ping_outcome p PingAnswer.timeout = ok (down none "timeout")
ping_outcome p (PingAnswer.uncaught e) = raised e
ping_outcome p (PingAnswer.finished code stdout stderr) = ok (exit_outcome p code stdout stderr)

unfoldable pub probe_ping_target : Platform → Network → String → Option String → Result ProbeOutcome
unfolding guarded ping_outcome
probe_ping_target p net url none = ok (down none ("invalid ping target: " ++ p.repr url))
probe_ping_target p net url (some target) =
    if is_empty target
    then ok (down none ("invalid ping target: " ++ p.repr url))
    else guarded p target (ping_outcome p (net.ping target))

unfoldable pub probe_ping : Platform → Network → String → Result ProbeOutcome
unfolding probe_ping_target
probe_ping p net url = do
  target ← parse_ping_target p.parsing url
  probe_ping_target p net url target

-- `_snmp_get` of a reply: the value, or the text of the SnmpError; no binding is an IndexError
pub data SnmpValue : Type 0 where
  value : String → SnmpValue
  snmp_error : String → SnmpValue
  index_error : SnmpValue

unfoldable pub snmp_value : Option String → Option String → ℕ → List String → SnmpValue
snmp_value (some indication) error index binds = snmp_error indication
snmp_value none (some error) index binds =
    snmp_error (error ++ " at " ++ (if index == 0 then "?" else show_nat index))
snmp_value none none index [] = index_error
snmp_value none none index (v ∷ vs) = value v

unfoldable pub value_outcome : ℕ → SnmpValue → Result ProbeOutcome
value_outcome latency (value v) = ok (up (some latency) none)
value_outcome latency (snmp_error exc) = ok (down none ("snmp error: " ++ exc))
value_outcome latency index_error = raised other

-- `latency` is the time that the request takes
unfoldable pub snmp_outcome : ℕ → SnmpAnswer → Result ProbeOutcome
unfolding value_outcome snmp_value
snmp_outcome latency (SnmpAnswer.reply r) =
    value_outcome latency (snmp_value r.error_indication r.error_status r.error_index r.var_binds)
snmp_outcome latency (SnmpAnswer.failed exc) = ok (down none ("snmp error: " ++ exc))
snmp_outcome latency (SnmpAnswer.uncaught e) = raised e

unfoldable pub probe_snmp_target :
    Platform → Network → String → Option SnmpTarget → Result ProbeOutcome
unfolding guarded snmp_outcome
probe_snmp_target p net url none = ok (
    down none
      ("invalid snmp target: " ++ p.repr url ++ " (expected snmp://[community@]host[:port]/OID)"))
probe_snmp_target p net url (some t) =
    guarded p t.host (snmp_outcome net.snmp_latency (net.snmp_get t.host t.port t.community t.oid))

unfoldable pub probe_snmp : Platform → Network → String → Result ProbeOutcome
unfolding probe_snmp_target
probe_snmp p net url = do
  target ← parse_snmp_target p.parsing url
  probe_snmp_target p net url target

-- the branches of the match
unfoldable pub probe_by_type : Platform → Network → ℕ → MonitorType → String → Result ProbeOutcome
unfolding probe_http probe_tcp probe_ssl probe_ping probe_snmp
probe_by_type p net now MonitorType.http url = probe_http p net url
probe_by_type p net now MonitorType.tcp url = probe_tcp p net url
probe_by_type p net now MonitorType.ssl url = probe_ssl p net now url
probe_by_type p net now MonitorType.ping url = probe_ping p net url
probe_by_type p net now MonitorType.snmp url = probe_snmp p net url
probe_by_type p net now MonitorType.docker url =
    ok (down none "Probe type 'docker' not implemented")

-- one run of the probe, against what the network answers then
unfoldable pub run_probe : Platform → Network → ℕ → Monitor → Result ProbeOutcome
unfolding probe_by_type
run_probe p net now m = probe_by_type p net now m.kind m.url
