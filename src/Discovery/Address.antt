-- ===== src/Discovery/Address.antt =====
-- `check_reachable` of app/core/services/discovery_service.py: what is asked of the network.
use Prim.Native.String.{String, ◌++◌}
use ghostmon.Base.{ℕ, ◌≡◌, refl, false, none, some, ok}
use ghostmon.Base.Texts.{has_char, show_nat, is_empty}
use ghostmon.Base.Texts.Laws.{IsUnicode}
use ghostmon.Model.Template.{DiscoveryMethod}
use ghostmon.Probes.{
  Platform, guarded, tcp_outcome, ping_outcome, probe_tcp, probe_tcp_target, probe_ping,
  probe_ping_target,
}
use ghostmon.Probes.Answers.{Network}
use ghostmon.Probes.Targets.{parse_ping_target}
use ghostmon.Probes.Reached.{
  IsPlain, parse_tcp_target_lem, parse_ping_target_plain, parse_ping_target_port,
}
use ghostmon.Discovery.{check_reachable, reached}

module _ (p : Platform) (net : Network) (law : IsUnicode p.parsing.unicode) (address : String)
    (plain : IsPlain p.parsing.unicode address) where
  -- A discovery by TCP connects to the address itself, at the port of the rule, behind the egress policy.
  pub check_reachable-tcp :
      (port : ℕ)
      → check_reachable p net DiscoveryMethod.tcp (some port) address
        ≡ reached (guarded p address (tcp_outcome (net.open_connection address port)))
  unfolding check_reachable probe_tcp probe_tcp_target
  check_reachable-tcp port = rw (parse_tcp_target_lem p.parsing law address plain port) refl

  ping_of :
      (target host : String)
      → is_empty host ≡ false
      → parse_ping_target p.parsing target ≡ ok (some host)
      → probe_ping p net target ≡ guarded p host (ping_outcome p (net.ping host))
  unfolding probe_ping probe_ping_target
  ping_of target host named h = rw (h, named) refl

  -- A discovery by ping pings the address itself, if there is no colon in it.
  pub check_reachable-ping :
      has_char ":" address ≡ false
      → check_reachable p net DiscoveryMethod.ping none address
        ≡ reached (guarded p address (ping_outcome p (net.ping address)))
  unfolding check_reachable
  check_reachable-ping no_colon =
      rw
        (ping_of address address plain.named
          (parse_ping_target_plain p.parsing address plain no_colon))
        refl

  -- A discovery by ping of an address that ends in a colon and a decimal number, such as an IPv6 address whose
  -- last group has no letters, pings what is before them: not the address.
  pub check_reachable_cut :
      (group : ℕ)
      → check_reachable p net DiscoveryMethod.ping none (address ++ ":" ++ show_nat group)
        ≡ reached (guarded p address (ping_outcome p (net.ping address)))
  unfolding check_reachable
  check_reachable_cut group =
      rw
        (ping_of (address ++ ":" ++ show_nat group) address plain.named
          (parse_ping_target_port p.parsing law address plain group))
        refl
