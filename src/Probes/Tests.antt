-- ===== src/Probes/Tests.antt =====
-- Probes of a monitor, and the targets that are read.
use Prim.Native.String.{String}
use ghostmon.Base.{
  ℕ, ◌+◌, ◌≤◌, ◌↔◌, ◌≡◌, refl, Bool, true, none, some, [], ◌∷◌, Memᴰ, inr, days, ok, raised, other,
}
use ghostmon.Base.Texts.{contains, strip, rpartition, all_digits, int_from, is_empty}
use ghostmon.Model.Monitor.{Monitor, MonitorType, MonitorStatus}
use ghostmon.Scheduler.Retries.{ProbeOutcome, up_status}
use ghostmon.Ssrf.{is_internal_ip, internal_text, target_allowed}
use ghostmon.Probes.{blocked, up, run_probe, probe_ssl}
use ghostmon.Probes.Ping.{parse_ping_time}
use ghostmon.Probes.Targets.{parse_tcp_target, parse_ping_target, parse_ssl_target}
use ghostmon.Probes.Blocked.{host_of, Internal, run_probe-blocked}
use ghostmon.Probes.Verdicts.{probe_ssl-certificate, run_probe-bad_port}
use ghostmon.Probes.Samples.{ascii, parsing, platform, open_platform, network}

abbrev monitor : MonitorType → String → Monitor
monitor kind url = record {
  id = 1;
  name = "m";
  kind = kind;
  url = url;
  interval = 60;
  retries = 0;
  retry_interval = 5;
  status = MonitorStatus.up;
  owner_id = 7;
  host_id = none;
}

-- a target with a port and one without
tcp_run : parse_tcp_target parsing " db:5432" ≡ ok (some "db", some 5432)
unfolding parse_tcp_target contains strip rpartition all_digits int_from
tcp_run = refl

ping_run : run_probe open_platform network 0 (monitor MonitorType.ping "db") ≡ ok (up (some 3) none)
unfolding run_probe parse_ping_time parse_ping_target contains strip rpartition target_allowed
ping_run = refl

db_host : host_of platform MonitorType.tcp "db:5432" ≡ ok (some "db")
unfolding host_of parse_tcp_target contains strip rpartition all_digits int_from
db_host = refl

db-Internal : Internal platform.egress "db"
unfolding internal_text is_internal_ip
db-Internal =
    inr ("8.8.8.8" ∷ "10.0.0.9" ∷ [], "10.0.0.9", refl, refl, Memᴰ.tail (Memᴰ.head refl), refl)

run_probe-blocked_example :
    run_probe platform network 0 (monitor MonitorType.tcp "db:5432") ≡ ok blocked
run_probe-blocked_example =
    run_probe-blocked platform network 0 (monitor MonitorType.tcp "db:5432") "db" refl db_host refl
      db-Internal

-- a certificate that expires fifteen days after the probe
abbrev now : ℕ
now = 898_704_000_000_000

db_target : parse_ssl_target parsing "db" ≡ ok (some "db", 443)
unfolding parse_ssl_target contains strip rpartition
db_target = refl

db_allowed : target_allowed open_platform.egress "db" ≡ true
unfolding target_allowed
db_allowed = refl

probe_ssl-certificate_example :
    (o : ProbeOutcome) × (probe_ssl open_platform network now "db" ≡ ok o)
    × ((up_status o.status ≡ true) ↔ (now ≤ 900_000_000_000_000))
    × ((o.error ≡ none) ↔ (now + days 15 ≤ 900_000_000_000_000))
probe_ssl-certificate_example =
    probe_ssl-certificate open_platform network now "db" "db" "Apr" 443 9 900_000_000_000_000
      db_target db_allowed refl refl refl

filled : is_empty (strip ascii.is_space "tcp://db:99999") ≡ Bool.false
unfolding strip
filled = refl

scheme : contains "://" (strip ascii.is_space "tcp://db:99999") ≡ true
unfolding strip contains
scheme = refl

run_probe-bad_port_example :
    run_probe platform network 0 (monitor MonitorType.tcp "tcp://db:99999") ≡ raised other
run_probe-bad_port_example =
    run_probe-bad_port platform network 0 (monitor MonitorType.tcp "tcp://db:99999") "db" "" none
      refl filled scheme refl
