-- ===== src/Probes/Blocked.antt =====
-- The egress policy and the probes of app/tasks/probes.py.
use Prim.Native.String.{[], ◌∷◌}
use ghostmon.Scheduler.Retries.{ProbeOutcome}
use ghostmon.Base.{
  ℕ, ◌≡◌, refl, sym, true, false, String, Option, none, some, List, Memᴰ, ◌⊎◌, inl, inr, arith,
  str_eq, Result, ok, ◌>>=◌, subst, call_returned, some_inj, ok_inj,
}
use ghostmon.Model.Monitor.{Monitor, MonitorType}
use ghostmon.Ssrf.{
  Address, Egress, is_internal_ip, internal_text, any_internal, host_is_blocked, target_allowed,
}
use ghostmon.Probes.Targets.{
  SnmpTarget, parse_tcp_target, parse_ssl_target, parse_ping_target, parse_snmp_target,
}
use ghostmon.Probes.Answers.{Network}
use ghostmon.Probes.{
  Platform, blocked, guarded, probe_http, probe_tcp_target, probe_tcp, probe_ssl_target, probe_ssl,
  probe_ping_target, probe_ping, probe_snmp_target, probe_snmp, probe_by_type, run_probe,
}

-- the host that a probe connects to, if the target can be read
abbrev tcp_host : Option String × Option ℕ → Option String
tcp_host (some host, some port) = some host
tcp_host _ = none

abbrev snmp_host : Option SnmpTarget → Option String
snmp_host none = none
snmp_host (some t) = some t.host

unfoldable pub host_of : Platform → MonitorType → String → Result (Option String)
host_of p MonitorType.http url = do host ← p.url_host url; ok (some host)
host_of p MonitorType.tcp url = do t ← parse_tcp_target p.parsing url; ok (tcp_host t)
host_of p MonitorType.ssl url = do t ← parse_ssl_target p.parsing url; ok t.0
host_of p MonitorType.ping url = parse_ping_target p.parsing url
host_of p MonitorType.snmp url = do t ← parse_snmp_target p.parsing url; ok (snmp_host t)
host_of p MonitorType.docker url = ok none

-- a name of which one address is internal is blocked
any_internal-mem :
    (e : Egress) (infos : List String) (a : String)
    → Memᴰ a infos
    → internal_text e a ≡ true
    → any_internal e infos ≡ true
unfolding any_internal
any_internal-mem e List.[] a m h = elim m [ ]
any_internal-mem e (List.◌∷◌ b rest) a (Memᴰ.head same) h =
    let first : internal_text e b ≡ true = subst (λ x. internal_text e x ≡ true) same h in
    ground (arith, first)
any_internal-mem e (List.◌∷◌ b rest) a (Memᴰ.tail m) h =
    ground (arith, any_internal-mem e rest a m h)

-- a literal address that is internal, or a name that resolves to one
abbrev pub Internal : Egress → String → Type 0
Internal e host =
    ((ip : Address) × (e.ip_address host ≡ some ip) × (is_internal_ip ip ≡ true))
    ⊎ ((infos : List String) × (a : String) × (e.ip_address host ≡ none)
        × (e.getaddrinfo host ≡ some infos)
        × Memᴰ a infos
        × (internal_text e a ≡ true))

Internal-is_blocked : (e : Egress) (host : String) → Internal e host → host_is_blocked e host ≡ true
unfolding host_is_blocked
Internal-is_blocked e host (inl (ip, literal, h)) = rw (literal, host_is_blocked) h
Internal-is_blocked e host (inr (infos, a, name, resolves, m, h)) =
    rw (name, host_is_blocked, resolves) (any_internal-mem e infos a m h)

target_refused :
    (e : Egress) (host : String)
    → e.block_private ≡ true
    → str_eq host "" ≡ false
    → Internal e host
    → target_allowed e host ≡ false
unfolding target_allowed
target_refused e host on named internal =
    rw (named, on, target_allowed, Internal-is_blocked e host internal) refl

module _ (p : Platform) (net : Network) (host : String)
    (b : target_allowed p.egress host ≡ false) where
  guarded-blocked :
      (h : String) (probe : Result ProbeOutcome)
      → some h ≡ some host
      → guarded p h probe ≡ ok blocked
  unfolding guarded
  guarded-blocked h probe same =
      let refused : target_allowed p.egress h ≡ false =
        subst (λ x. target_allowed p.egress x ≡ false) (sym (some_inj same)) b in
      rw refused refl

  tcp_blocked :
      (url : String) (t : Option String × Option ℕ)
      → tcp_host t ≡ some host
      → probe_tcp_target p net url t ≡ ok blocked
  unfolding probe_tcp_target
  tcp_blocked url (some h, some n) same = guarded-blocked h _ same
  tcp_blocked url (some h, none) same = cc same
  tcp_blocked url (none, n) same = cc same

  ssl_blocked :
      (now : ℕ) (url : String) (t : Option String × ℕ)
      → t.0 ≡ some host
      → probe_ssl_target p net now url t ≡ ok blocked
  unfolding probe_ssl_target
  ssl_blocked now url (some h, n) same = guarded-blocked h _ same
  ssl_blocked now url (none, n) same = cc same

  snmp_blocked :
      (url : String) (t : Option SnmpTarget)
      → snmp_host t ≡ some host
      → probe_snmp_target p net url t ≡ ok blocked
  unfolding probe_snmp_target
  snmp_blocked url (some t) same = guarded-blocked t.host _ same
  snmp_blocked url none same = cc same

  -- a target that may not be reached is not empty
  ping_blocked :
      (url : String) (t : Option String)
      → t ≡ some host
      → probe_ping_target p net url t ≡ ok blocked
  unfolding probe_ping_target target_allowed
  ping_blocked url none same = cc same
  ping_blocked url (some []) same =
      let refused : target_allowed p.egress "" ≡ false =
        subst (λ x. target_allowed p.egress x ≡ false) (sym (some_inj same)) b in
      cc refused
  ping_blocked url (some (c ∷ h)) same = guarded-blocked (c ∷ h) _ same

  by_type_blocked :
      (now : ℕ) (kind : MonitorType) (url : String)
      → host_of p kind url ≡ ok (some host)
      → probe_by_type p net now kind url ≡ ok blocked
  unfolding probe_by_type host_of probe_http probe_tcp probe_ssl probe_snmp probe_ping
  by_type_blocked now MonitorType.http url h =
      let (x, e, same) = call_returned (p.url_host url) _ h in
      rw e (guarded-blocked x _ (ok_inj same))
  by_type_blocked now MonitorType.tcp url h =
      let (t, e, same) = call_returned (parse_tcp_target p.parsing url) _ h in
      rw e (tcp_blocked url t (ok_inj same))
  by_type_blocked now MonitorType.ssl url h =
      let (t, e, same) = call_returned (parse_ssl_target p.parsing url) _ h in
      rw e (ssl_blocked now url t (ok_inj same))
  by_type_blocked now MonitorType.ping url h = rw h (ping_blocked url (some host) refl)
  by_type_blocked now MonitorType.snmp url h =
      let (t, e, same) = call_returned (parse_snmp_target p.parsing url) _ h in
      rw e (snmp_blocked url t (ok_inj same))
  by_type_blocked now MonitorType.docker url h = cc h

-- With the egress policy on, a monitor whose target is an internal address, or a name of which one
-- address is internal, is DOWN, whatever its type is and whatever the network would answer.
pub run_probe-blocked :
    (p : Platform) (net : Network) (now : ℕ) (m : Monitor) (host : String)
    → p.egress.block_private ≡ true
    → host_of p m.kind m.url ≡ ok (some host)
    → str_eq host "" ≡ false
    → Internal p.egress host
    → run_probe p net now m ≡ ok blocked
unfolding run_probe
run_probe-blocked p net now m host on target named internal =
    by_type_blocked p net host (target_refused p.egress host on named internal) now m.kind m.url
      target
