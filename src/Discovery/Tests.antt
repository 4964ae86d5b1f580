-- ===== src/Discovery/Tests.antt =====
-- A range of two addresses: one answers, and belongs to a host later.
use Prim.Native.String.{String, ◌++◌}
use ghostmon.Base.{
  ℕ, ◌+◌, ◌≤◌, ◌≡◌, ◌≢◌, refl, arith, Bool, true, Option, none, some, List, [], ◌∷◌, length, str_eq,
  if◌then◌else◌, ok, subst, some_inj,
}
use ghostmon.Base.Texts.{show_nat, all_chars, has_char, contains, strip, rpartition}
use ghostmon.Model.Host.{Host}
use ghostmon.Model.Template.{TemplateItem, DiscoveryRule, DiscoveryMethod}
use ghostmon.Bridge.{Inventory}
use ghostmon.Probes.{guarded, ping_outcome, probe_ping}
use ghostmon.Probes.Answers.{Network, PingAnswer, success}
use ghostmon.Probes.Targets.{parse_ping_target}
use ghostmon.Ssrf.{target_allowed}
use ghostmon.Probes.Reached.{IsPlain}
use ghostmon.Probes.Samples.{ascii, ascii-IsUnicode, open_platform, network}
use ghostmon.Discovery.{
  DiscoveryRuleCreate, check_reachable, reached, reachable_of, candidates_of, scan_rule, scan_due,
}
use ghostmon.Discovery.Scans.{probed}
use ghostmon.Discovery.Again.{scan_rule-created, scan_rule_again}
use ghostmon.Discovery.Job.{scan_due-taken}
use ghostmon.Discovery.Address.{check_reachable_cut}
use ghostmon.Discovery.Schema.{AddressRange, valid_rule}

abbrev unordered : String → String → Bool
unordered a b = true

abbrev no_items : List TemplateItem
no_items = []

-- only "a" answers
abbrev net : Network
net = record network {
  ping = λ host. if str_eq host "a" then PingAnswer.finished success "" "" else PingAnswer.timeout;
}

abbrev pair : AddressRange
pair = record { num_addresses = 4; prefixlen = 30; max_prefixlen = 32; hosts = "a" ∷ "b" ∷ [] }

abbrev ip_network : String → Option AddressRange
ip_network cidr = some pair

abbrev range : String → List String
range cidr = "a" ∷ "b" ∷ []

abbrev rule : DiscoveryRule
rule = record {
  id = 1;
  owner_id = 7;
  name = "office";
  cidr = "10.0.0.0/30";
  method = DiscoveryMethod.ping;
  port = none;
  template_id = none;
  interval_seconds = 3600;
  is_enabled = true;
  last_run_at = none;
}

abbrev no_rows : Inventory
no_rows = record { hosts = []; items = []; next_id = 10 }

abbrev host : ℕ → ℕ → String → Option String → Host
host id owner_id name address = record {
  id = id;
  name = name;
  description = none;
  address = address;
  is_enabled = true;
  owner_id = owner_id;
}

first_scan : (scan_rule unordered no_items open_platform net range rule 100 no_rows).created ≡ ok 1
unfolding scan_rule probe_ping parse_ping_target strip contains rpartition target_allowed
first_scan = refl

scan_rule-created_example :
    (1 ≤ 1024)
    × (length
          (scan_rule unordered no_items open_platform net range rule 100 no_rows).inventory.hosts
        ≡ 0 + 1)
scan_rule-created_example =
    scan_rule-created unordered no_items open_platform net range rule 100 1 no_rows first_scan

abbrev stamped : DiscoveryRule
stamped = (scan_rule unordered no_items open_platform net range rule 100 no_rows).rule

scan_rule_again_example :
    let first = scan_rule unordered no_items open_platform net range rule 100 no_rows in
    scan_rule unordered no_items open_platform net range first.rule 900 first.inventory ≡ record {
      inventory = first.inventory;
      rule = record first.rule { last_run_at = some 900 };
      created = ok 0;
    }
scan_rule_again_example =
    scan_rule_again unordered no_items open_platform net range rule 100 900 1 no_rows first_scan

-- a host that is named "a" and has no address
abbrev named : Inventory
named = record no_rows { hosts = host 3 7 "a" none ∷ [] }

named_answers :
    reachable_of open_platform net DiscoveryMethod.ping none
      (probed unordered no_items open_platform net range rule named)
    ≡ ok ("a" ∷ [])
unfolding reachable_of candidates_of probe_ping parse_ping_target strip contains rpartition
    target_allowed
named_answers = refl

scan_due-taken_example :
    scan_due unordered no_items open_platform net range 100 (rule ∷ rule ∷ []) named
    ≡ (rule ∷ rule ∷ [], named)
scan_due-taken_example =
    scan_due-taken unordered no_items open_platform net range rule (rule ∷ []) 100 named ("a" ∷ [])
      "a" refl named_answers refl refl

seven_not_eight : ◌≢◌ {A = ℕ} 7 8
seven_not_eight = ground arith

address-IsPlain : IsPlain ascii "10.0.0.9"
unfolding all_chars has_char
address-IsPlain = record { named = refl; spaces = refl; slashes = refl }

prefix-IsPlain : IsPlain ascii "2001:db8:"
unfolding all_chars has_char
prefix-IsPlain = record { named = refl; spaces = refl; slashes = refl }

-- the address 2001:db8::1
check_reachable_cut_example :
    check_reachable open_platform net DiscoveryMethod.ping none ("2001:db8:" ++ ":" ++ show_nat 1)
    ≡ reached
        (guarded open_platform "2001:db8:" (ping_outcome open_platform (net.ping "2001:db8:")))
check_reachable_cut_example =
    check_reachable_cut open_platform net ascii-IsUnicode "2001:db8:" prefix-IsPlain 1

abbrev payload : DiscoveryRuleCreate
payload = record {
  name = "office";
  cidr = "10.0.0.0/30";
  method = DiscoveryMethod.ping;
  port = none;
  template_id = none;
  interval_seconds = 3600;
  is_enabled = true;
}

payload_valid : valid_rule ip_network payload ≡ true
unfolding valid_rule
payload_valid = refl

pair_bound :
    (cidr : String) (network : AddressRange)
    → ip_network cidr ≡ some network
    → length network.hosts ≤ network.num_addresses
pair_bound cidr network e = subst (λ n. length n.hosts ≤ n.num_addresses) (some_inj e) (omega arith)
