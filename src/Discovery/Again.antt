-- ===== src/Discovery/Again.antt =====
-- `scan_rule` of app/core/services/discovery_service.py, run again, and `_discovery_job` of
-- app/tasks/scheduler.py.
use ghostmon.Base.{
  ℕ, zero, suc, ◌+◌, ◌≤◌, ◌≡◌, refl, Bool, true, false, not, String, some, List, [], ◌∷◌, arith,
  length, length-filterb, filterb, take, All, has_text, str_eq_refl, ok, Bool-cases, inl, inr,
}
use ghostmon.Model.Template.{TemplateItem, DiscoveryRule}
use ghostmon.Probes.{Platform}
use ghostmon.Probes.Answers.{Network}
use ghostmon.Bridge.{Inventory}
use ghostmon.Discovery.{
  max_scan_hosts, existing_addresses, provision, finish_scan, candidates_of, check_reachable,
  reachable_of, scan_rule,
}
use ghostmon.Discovery.Provisioned.{has_text-existing, provision-created, provision-owned}
use ghostmon.Discovery.Reach.{Silent, reachable_of-Silent, reachable_of-none, length-reachable_of}
use ghostmon.Discovery.Scans.{probed, scan_rule-reachable, scan_rule-ok}

length-take : {A : Type 0} (n : ℕ) (xs : List A) → length (take n xs) ≤ n
length-take zero xs = omega arith
length-take (suc n) [] = omega arith
length-take (suc n) (x ∷ xs) = omega (arith, length-take n xs)

module _ (P Q : String → Type 0) (first second : String → Bool) where
  All-tail :
      (a : String) (xs : List String) → All P (filterb first (a ∷ xs)) → All P (filterb first xs)
  All-tail a xs h = elim (Bool-cases (first a)) [ inl e ↦ (rw e at h).1 | inr e ↦ rw e at h ]

  -- what passes the second test passes the first, and is narrowed
  All-narrow :
      (xs : List String)
      → ((a : String) → has_text a xs ≡ true → second a ≡ true → (first a ≡ true) × (P a → Q a))
      → All P (filterb first xs)
      → All Q (filterb second xs)
  All-narrow [] step h = tt
  All-narrow (a ∷ xs) step h =
      let rest = All-narrow xs (λ b m. step b (ground (arith, m))) (All-tail a xs h) in
      elim (Bool-cases (second a)) [
        | inl e ↦
            let (passes, narrow) = step a (ground (arith, str_eq_refl a)) e in
            let h' = rw passes at h in rw e (narrow h'.0, rest)
        | inr e ↦ rw e rest
      ]

module _ (before : String → String → Bool) (template_items : List TemplateItem) (p : Platform)
    (net : Network) (hosts_of : String → List String) where
  -- A scan that ends well has created at most 1024 hosts, and these are the rows that it added to the
  -- table of hosts.
  pub scan_rule-created :
      (rule : DiscoveryRule) (now n : ℕ) (inv : Inventory)
      → (scan_rule before template_items p net hosts_of rule now inv).created ≡ ok n
      → (n ≤ 1024)
        × (length (scan_rule before template_items p net hosts_of rule now inv).inventory.hosts
            ≡ length inv.hosts + n)
  unfolding candidates_of
  scan_rule-created rule now n inv h =
      let (r, reaches, count, scan) =
        scan_rule-ok before template_items p net hosts_of rule now n inv h in
      let (total, rows) = provision-created before template_items rule r 0 n inv inv count in
      let addresses = take max_scan_hosts (hosts_of rule.cidr) in
      let existing = existing_addresses rule.owner_id addresses inv.hosts in
      let fewer =
        length-reachable_of p net rule.method rule.port
          (probed before template_items p net hosts_of rule inv) r reaches in
      let probes = length-filterb (λ a. not (has_text a existing)) addresses in
      let most = length-take max_scan_hosts (hosts_of rule.cidr) in
      (omega (arith, total, fewer, probes, most), rw scan (omega (arith, total, rows)))

  nothing_reached :
      (rule : DiscoveryRule) (later : ℕ) (inv : Inventory)
      → reachable_of p net rule.method rule.port
          (probed before template_items p net hosts_of rule inv)
        ≡ ok []
      → scan_rule before template_items p net hosts_of rule later inv ≡ record {
        inventory = inv;
        rule = record rule { last_run_at = some later };
        created = ok 0;
      }
  unfolding finish_scan provision
  nothing_reached rule later inv h =
      rw (scan_rule-reachable before template_items p net hosts_of rule later inv [] h) refl

  -- an address that the second scan probes was probed by the first, and did not answer
  scanned_twice :
      (rule : DiscoveryRule) (now later n : ℕ) (inv : Inventory) (r : List String)
      → reachable_of p net rule.method rule.port
          (probed before template_items p net hosts_of rule inv)
        ≡ ok r
      → (provision before template_items rule r 0 inv inv).1 ≡ ok n
      → let after = (provision before template_items rule r 0 inv inv).0 in
        scan_rule before template_items p net hosts_of
          (record rule { last_run_at = some now })
          later
          after
        ≡ record {
          inventory = after;
          rule = record rule { last_run_at = some later };
          created = ok 0;
        }
  unfolding candidates_of
  scanned_twice rule now later n inv r reaches count =
      let after = (provision before template_items rule r 0 inv inv).0 in
      let addresses = take max_scan_hosts (hosts_of rule.cidr) in
      let fresh : Inventory → String → Bool =
        λ i a. not (has_text a (existing_addresses rule.owner_id addresses i.hosts)) in
      let unanswered =
        All-narrow (Silent p net rule.method rule.port r)
          (λ a. check_reachable p net rule.method rule.port a ≡ ok false) (fresh inv) (fresh after)
          addresses
          (λ a m new.
            let before' = has_text-existing rule.owner_id addresses inv.hosts a m in
            let after' = has_text-existing rule.owner_id addresses after.hosts a m in
            let grown = provision-owned before template_items rule r 0 n inv inv a count in
            (
              ground (arith, before', after', grown, new),
              λ silent. silent (ground (arith, after', grown, new)),
            ))
          (reachable_of-Silent p net rule.method rule.port
            (probed before template_items p net hosts_of rule inv) r reaches) in
      nothing_reached (record rule { last_run_at = some now }) later after
        (reachable_of-none p net rule.method rule.port
          (probed before template_items p net hosts_of rule after) unanswered)

  -- A rule that was scanned well and is scanned again, whenever, with the same answers of the network,
  -- creates nothing: the tables stay as the first scan left them, and the rule is stamped again.
  pub scan_rule_again :
      (rule : DiscoveryRule) (now later n : ℕ) (inv : Inventory)
      → (scan_rule before template_items p net hosts_of rule now inv).created ≡ ok n
      → let first = scan_rule before template_items p net hosts_of rule now inv in
        scan_rule before template_items p net hosts_of first.rule later first.inventory ≡ record {
          inventory = first.inventory;
          rule = record first.rule { last_run_at = some later };
          created = ok 0;
        }
  scan_rule_again rule now later n inv h =
      let (r, reaches, count, scan) =
        scan_rule-ok before template_items p net hosts_of rule now n inv h in
      rw scan (scanned_twice rule now later n inv r reaches count)
