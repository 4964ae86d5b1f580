-- ===== src/Discovery.antt =====
-- app/core/services/discovery_service.py: scanning an address range, and `_discovery_job` of
-- app/tasks/scheduler.py.
pub mod Provisioned
pub mod Reach
pub mod Scans
pub mod Again
pub mod Address
pub mod Schema
pub mod Job
mod Tests
use Prim.Native.String.{◌++◌ as str_append}
use ghostmon.Base.{
  ℕ, zero, suc, ◌+◌, Bool, true, false, ◌&&◌, ◌||◌, not, String, Option, none, some, List, [], ◌∷◌,
  ◌++◌, map, leb, ltb, ◌==◌, str_eq, if◌then◌else◌, filterb, find, take, length, has_text, seconds,
  Result, ok, raised, Exception, os_error, integrity_error, other, ◌>>=◌, length_in,
}
use ghostmon.Base.Texts.{show_nat}
use ghostmon.Model.Host.{Host, Item}
use ghostmon.Model.Template.{TemplateItem, DiscoveryMethod, DiscoveryRule}
use ghostmon.Scheduler.Retries.{ProbeOutcome, up_status}
use ghostmon.Probes.{Platform, probe_tcp, probe_ping}
use ghostmon.Probes.Answers.{Network}
use ghostmon.Bridge.{Inventory}
use ghostmon.Templates.{ApplyResult, apply_to_host}

-- app/core/schemas/discovery.py
abbrev pub max_scan_hosts : ℕ
max_scan_hosts = 1024

unfoldable pub get_rule : ℕ → ℕ → List DiscoveryRule → Option DiscoveryRule
get_rule rule_id owner_id rules =
    find (λ (r : DiscoveryRule). r.id == rule_id && r.owner_id == owner_id) rules

-- the fields of a payload
pub record DiscoveryRuleCreate : Type 0 where
  pub name : String
  pub cidr : String
  pub method : DiscoveryMethod
  pub port : Option ℕ
  pub template_id : Option ℕ
  pub interval_seconds : ℕ
  pub is_enabled : Bool

unfoldable pub create_rule : ℕ → ℕ → DiscoveryRuleCreate → List DiscoveryRule → List DiscoveryRule
create_rule id owner_id payload rules =
    let rule : DiscoveryRule = record {
      id = id;
      owner_id = owner_id;
      name = payload.name;
      cidr = payload.cidr;
      method = payload.method;
      port = payload.port;
      template_id = payload.template_id;
      interval_seconds = payload.interval_seconds;
      is_enabled = payload.is_enabled;
      last_run_at = none;
    } in
    rules ++ rule ∷ []

unfoldable pub delete_rule : DiscoveryRule → List DiscoveryRule → List DiscoveryRule
delete_rule rule rules = filterb (λ (r : DiscoveryRule). not (r.id == rule.id)) rules

unfoldable pub is_due : ℕ → DiscoveryRule → Bool
is_due now r = elim r.last_run_at [
  | none ↦ true
  | some last_run_at ↦ leb (last_run_at + seconds r.interval_seconds) now
]

unfoldable pub due_rules : ℕ → List DiscoveryRule → List DiscoveryRule
unfolding is_due
due_rules now rules =
    filterb (λ r. is_due now r) (filterb (λ (r : DiscoveryRule). r.is_enabled) rules)

-- the addresses of the owner's hosts that are among `addresses`
unfoldable pub existing_addresses : ℕ → List String → List Host → List String
existing_addresses owner_id addresses [] = []
existing_addresses owner_id addresses (h ∷ hs) =
    let rest = existing_addresses owner_id addresses hs in
    elim h.address [
      | none ↦ rest
      | some a ↦ if h.owner_id == owner_id && has_text a addresses then a ∷ rest else rest
    ]

abbrev pub name_taken : ℕ → String → List Host → Bool
name_taken owner_id name [] = false
name_taken owner_id name (h ∷ hs) =
    h.owner_id == owner_id && str_eq h.name name || name_taken owner_id name hs

-- `_probe` of one address: OSError and TimeoutError count as not reachable
unfoldable pub reached : Result ProbeOutcome → Result Bool
reached (ok outcome) = ok (up_status outcome.status)
reached (raised os_error) = ok false
reached (raised e) = raised e

unfoldable pub discovered_host : DiscoveryRule → String → ℕ → Host
discovered_host rule address id = record {
  id = id;
  name = address;
  description = some (str_append "Discovered by “" (str_append rule.name "”."));
  address = some address;
  is_enabled = true;
  owner_id = rule.owner_id;
}

-- What a scan leaves: the tables, the rule, and the number of hosts, or the exception that ends it.
pub record Scanned : Type 0 where
  pub inventory : Inventory
  pub rule : DiscoveryRule
  pub created : Result ℕ

module _ (p : Platform) (net : Network) where
  unfoldable pub check_reachable : DiscoveryMethod → Option ℕ → String → Result Bool
  unfolding reached
  check_reachable DiscoveryMethod.tcp (some port) address =
      reached (probe_tcp p net (str_append address (str_append ":" (show_nat port))))
  check_reachable _ _ address = reached (probe_ping p net address)

  -- `gather`, and the addresses that answered
  unfoldable pub reachable_of : DiscoveryMethod → Option ℕ → List String → Result (List String)
  unfolding check_reachable
  reachable_of method port [] = ok []
  reachable_of method port (a ∷ rest) = do
    answered ← check_reachable method port a
    others ← reachable_of method port rest
    ok (if answered then a ∷ others else others)

-- `last_run_at` is stamped, and committed with the hosts, after the loop
unfoldable pub finish_scan : DiscoveryRule → ℕ → Inventory × Result ℕ → Scanned
finish_scan rule now (inv, ok created) = record {
  inventory = inv;
  rule = record rule { last_run_at = some now };
  created = ok created;
}
finish_scan rule now (inv, raised e) = record { inventory = inv; rule = rule; created = raised e }

-- the addresses to probe, of the range's
unfoldable pub candidates_of : ℕ → List String → List Host → List String
unfolding existing_addresses
candidates_of owner_id addresses hosts =
    let existing = existing_addresses owner_id addresses hosts in
    filterb (λ a. not (has_text a existing)) addresses

-- What follows a scan of the job, with what the other rules would give. An exception is logged, but a
-- session in which a flush failed refuses every later statement until it is rolled back, which the job
-- does not do.
unfoldable pub after_scan :
    Result ℕ
    → Scanned
    → List DiscoveryRule
    → List DiscoveryRule × Inventory
    → List DiscoveryRule × Inventory
after_scan (raised integrity_error) scanned rest more = (scanned.rule ∷ rest, scanned.inventory)
after_scan _ scanned rest (rules, after) = (scanned.rule ∷ rules, after)

-- the order of the database's collation, and the rows of `template_items`
module _ (before : String → String → Bool) (template_items : List TemplateItem) where
  -- the template of the rule, on a host that was flushed
  unfoldable pub provision_items : DiscoveryRule → ℕ → Inventory → ApplyResult
  provision_items rule host_id inv = elim rule.template_id [
    | none ↦ record { created = 0; inventory = inv }
    | some template_id ↦ apply_to_host before template_id host_id template_items inv
  ]

  -- the loop. `committed` are the tables at the last commit: `apply_to_host` commits if it adds an item,
  -- with the host that was flushed before. A host whose name the owner has is an IntegrityError, which
  -- rolls back to them.
  unfoldable pub provision :
      DiscoveryRule → List String → ℕ → Inventory → Inventory → Inventory × Result ℕ
  unfolding provision_items discovered_host
  provision rule [] created committed inv = (inv, ok created)
  provision rule (a ∷ rest) created committed inv =
      let host = discovered_host rule a inv.next_id in
      let added : Inventory = record inv {
        hosts = inv.hosts ++ host ∷ [];
        next_id = suc inv.next_id;
      } in
      let applied = provision_items rule host.id added in
      let committed' = if applied.created == 0 then committed else applied.inventory in
      let more = provision rule rest (suc created) committed' applied.inventory in
      if name_taken rule.owner_id a inv.hosts then (committed, raised integrity_error) else more

  unfoldable pub provision_reachable :
      DiscoveryRule → ℕ → Inventory → Result (List String) → Scanned
  unfolding provision finish_scan
  provision_reachable rule now inv (ok reachable) =
      finish_scan rule now (provision rule reachable 0 inv inv)
  provision_reachable rule now inv (raised e) = record {
    inventory = inv;
    rule = rule;
    created = raised e;
  }

  -- `hosts_of` lists the addresses of a range: `ip_network(cidr, strict=False).hosts()`
  unfoldable pub scan_rule :
      Platform → Network → (String → List String) → DiscoveryRule → ℕ → Inventory → Scanned
  unfolding candidates_of reachable_of provision_reachable
  scan_rule p net hosts_of rule now inv =
      let addresses = take max_scan_hosts (hosts_of rule.cidr) in
      let candidates = candidates_of rule.owner_id addresses inv.hosts in
      provision_reachable rule now inv (reachable_of p net rule.method rule.port candidates)

  -- `_discovery_job`, over the rules that are due: the rules with their new stamps, and the tables
  unfoldable pub scan_due :
      Platform
      → Network
      → (String → List String)
      → ℕ
      → List DiscoveryRule
      → Inventory
      → List DiscoveryRule × Inventory
  unfolding scan_rule after_scan
  scan_due p net hosts_of now [] inv = ([], inv)
  scan_due p net hosts_of now (rule ∷ rest) inv =
      let scanned = scan_rule p net hosts_of rule now inv in
      let more = scan_due p net hosts_of now rest scanned.inventory in
      after_scan scanned.created scanned rest more
