-- ===== src/Probes/Verdicts.antt =====
-- The outcomes of app/tasks/probes.py for certificates and for URLs that cannot be read.
use ghostmon.Base.{
  ℕ, ◌+◌, ◌-◌, ◌/◌, ◌≤◌, ◌≡◌, refl, Bool, true, false, String, Option, none, some, arith, ok,
  raised, other, is_set, ◌↔◌, days, ltb, leb, str_eq, Bool-cases, inl, inr,
}
use ghostmon.Base.Texts.{is_empty, contains}
use ghostmon.Model.Monitor.{Monitor, MonitorType}
use ghostmon.Scheduler.Retries.{ProbeOutcome, up_status}
use ghostmon.Ssrf.{target_allowed}
use ghostmon.Probes.Targets.{
  bad_port, port_of, parse_tcp_target, parse_ssl_target, parse_snmp_target, snmp_target, strip_text,
}
use ghostmon.Probes.Answers.{Network, TlsAnswer}
use ghostmon.Probes.{
  Platform, guarded, expiry_outcome, not_after_outcome, certificate_outcome, tls_outcome,
  probe_ssl_target, probe_ssl, probe_tcp, probe_snmp, probe_by_type, run_probe,
  ssl_expiry_warning_days,
}

-- UP exactly up to the expiry, and without a warning exactly if fifteen days are left
expiry_status :
    (latency now e : ℕ) → (up_status (expiry_outcome latency now e).status ≡ true) ↔ (now ≤ e)
unfolding expiry_outcome
expiry_status latency now e = elim (Bool-cases (ltb e now)) [
  | inl h ↦ rw h (ground (arith, h))
  | inr h ↦ rw h (ground (arith, h))
]

expiry_warning :
    (latency now e : ℕ) → ((expiry_outcome latency now e).error ≡ none) ↔ (now + days 15 ≤ e)
unfolding expiry_outcome
expiry_warning latency now e = elim (Bool-cases (ltb e now)) [
  | inl h ↦ rw h (ground (arith, h))
  | inr h ↦ rw h (elim (Bool-cases (leb ((e - now) / days 1) ssl_expiry_warning_days)) [
    | inl soon ↦ rw soon (ground (arith, h, soon))
    | inr later ↦ rw later (ground (arith, h, later))
  ])
]

certificate_outcome_lem :
    (p : Platform) (now latency e : ℕ) (text : String)
    → str_eq text "" ≡ false
    → p.cert_time text ≡ some e
    → certificate_outcome p now latency (some (record { not_after = some text }))
      ≡ expiry_outcome latency now e
unfolding certificate_outcome not_after_outcome
certificate_outcome_lem p now latency e text given time =
    let filled : is_set (some text) ≡ true = ground (arith, given) in
    rw (certificate_outcome, filled, not_after_outcome, time) refl

module _ (p : Platform) (net : Network) (now : ℕ) where
  -- A probe of a TLS target that may be reached, whose peer answers with a certificate that is valid up
  -- to the timestamp `e`, gives an outcome that is UP exactly up to `e`, and that has neither an error nor a
  -- warning exactly if fifteen days are left until `e`.
  pub probe_ssl-certificate :
      (url host text : String) (port latency e : ℕ)
      → parse_ssl_target p.parsing url ≡ ok (some host, port)
      → target_allowed p.egress host ≡ true
      → net.open_tls host port
        ≡ TlsAnswer.connected latency (some (record { not_after = some text }))
      → str_eq text "" ≡ false
      → p.cert_time text ≡ some e
      → (o : ProbeOutcome) × (probe_ssl p net now url ≡ ok o)
        × ((up_status o.status ≡ true) ↔ (now ≤ e))
        × ((o.error ≡ none) ↔ (now + days 15 ≤ e))
  unfolding probe_ssl probe_ssl_target guarded tls_outcome
  probe_ssl-certificate url host text port latency e target allowed answer given time =
      let run : probe_ssl p net now url ≡ ok (expiry_outcome latency now e) =
        rw
          (
            probe_ssl,
            target,
            allowed,
            answer,
            tls_outcome,
            certificate_outcome_lem p now latency e text given time,
          )
          refl in
      (expiry_outcome latency now e, run, expiry_status latency now e, expiry_warning latency now e)

-- the types whose targets are read as URLs with ports
abbrev pub with_port : MonitorType → Bool
with_port MonitorType.tcp = true
with_port MonitorType.ssl = true
with_port MonitorType.snmp = true
with_port _ = false

module _ (p : Platform) (net : Network) (now : ℕ) {host path : String}
    {username : Option String} where
  by_type_bad_port :
      (kind : MonitorType) (url : String)
      → with_port kind ≡ true
      → is_empty (strip_text p.parsing url) ≡ false
      → contains "://" (strip_text p.parsing url) ≡ true
      → p.parsing.urlparse (strip_text p.parsing url)
        ≡ ok (record { hostname = some host; port = bad_port; username = username; path = path })
      → probe_by_type p net now kind url ≡ raised other
  unfolding probe_by_type probe_tcp probe_ssl probe_snmp parse_tcp_target parse_ssl_target
      parse_snmp_target snmp_target port_of
  by_type_bad_port MonitorType.tcp url k filled scheme parsed = rw (scheme, parsed) refl
  by_type_bad_port MonitorType.ssl url k filled scheme parsed = rw (scheme, parsed) refl
  by_type_bad_port MonitorType.snmp url k filled scheme parsed = rw (filled, scheme, parsed) refl
  by_type_bad_port MonitorType.http url k filled scheme parsed = cc k
  by_type_bad_port MonitorType.ping url k filled scheme parsed = cc k
  by_type_bad_port MonitorType.docker url k filled scheme parsed = cc k

-- The probe of a TCP, TLS or SNMP monitor whose URL has a scheme, a host and a bad port ends in an exception,
-- whatever the network would answer and whatever the egress policy is.
pub run_probe-bad_port :
    (p : Platform) (net : Network) (now : ℕ) (m : Monitor) (host path : String)
    (username : Option String)
    → with_port m.kind ≡ true
    → is_empty (strip_text p.parsing m.url) ≡ false
    → contains "://" (strip_text p.parsing m.url) ≡ true
    → p.parsing.urlparse (strip_text p.parsing m.url)
      ≡ ok (record { hostname = some host; port = bad_port; username = username; path = path })
    → run_probe p net now m ≡ raised other
unfolding run_probe
run_probe-bad_port p net now m host path username kind filled scheme parsed =
    by_type_bad_port p net now m.kind m.url kind filled scheme parsed
