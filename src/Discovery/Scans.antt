-- ===== src/Discovery/Scans.antt =====
-- `scan_rule` of app/core/services/discovery_service.py, and the job that calls it.
use ghostmon.Base.{
  ℕ, ◌≡◌, refl, ◌∙◌, Bool, String, some, List, take, Result, ok, raised, Result-cases, inl, inr,
  ok_inj,
}
use ghostmon.Model.Template.{TemplateItem, DiscoveryRule}
use ghostmon.Probes.{Platform}
use ghostmon.Probes.Answers.{Network}
use ghostmon.Bridge.{Inventory}
use ghostmon.Discovery.{
  max_scan_hosts, provision, finish_scan, candidates_of, reachable_of, provision_reachable,
  scan_rule,
}

module _ (before : String → String → Bool) (template_items : List TemplateItem) (p : Platform)
    (net : Network) (hosts_of : String → List String) where
  -- the addresses that a scan probes
  abbrev pub probed : DiscoveryRule → Inventory → List String
  probed rule inv = candidates_of rule.owner_id (take max_scan_hosts (hosts_of rule.cidr)) inv.hosts

  pub scan_rule-reachable :
      (rule : DiscoveryRule) (now : ℕ) (inv : Inventory) (r : List String)
      → reachable_of p net rule.method rule.port (probed rule inv) ≡ ok r
      → scan_rule before template_items p net hosts_of rule now inv
        ≡ finish_scan rule now (provision before template_items rule r 0 inv inv)
  unfolding scan_rule provision_reachable
  scan_rule-reachable rule now inv r h = rw h refl

  pub scan_rule-raised :
      (rule : DiscoveryRule) (now : ℕ) (inv : Inventory) (e : _)
      → reachable_of p net rule.method rule.port (probed rule inv) ≡ raised e
      → scan_rule before template_items p net hosts_of rule now inv
        ≡ record { inventory = inv; rule = rule; created = raised e }
  unfolding scan_rule provision_reachable
  scan_rule-raised rule now inv e h = rw h refl

  finish_scan-ok :
      (rule : DiscoveryRule) (now n : ℕ) (q : Inventory × Result ℕ)
      → (finish_scan rule now q).created ≡ ok n
      → (q.1 ≡ ok n)
        × (finish_scan rule now q ≡ record {
          inventory = q.0;
          rule = record rule { last_run_at = some now };
          created = ok n;
        })
  unfolding finish_scan
  finish_scan-ok rule now n (inv, ok m) h = (h, rw (ok_inj h) refl)
  finish_scan-ok rule now n (inv, raised e) h = cc h

  -- a scan that ends well
  pub scan_rule-ok :
      (rule : DiscoveryRule) (now n : ℕ) (inv : Inventory)
      → (scan_rule before template_items p net hosts_of rule now inv).created ≡ ok n
      → (r : List String) × (reachable_of p net rule.method rule.port (probed rule inv) ≡ ok r)
        × ((provision before template_items rule r 0 inv inv).1 ≡ ok n)
        × (scan_rule before template_items p net hosts_of rule now inv ≡ record {
          inventory = (provision before template_items rule r 0 inv inv).0;
          rule = record rule { last_run_at = some now };
          created = ok n;
        })
  scan_rule-ok rule now n inv h =
      elim (Result-cases (reachable_of p net rule.method rule.port (probed rule inv))) [
        | inl (e, raises) ↦ cc (rw (scan_rule-raised rule now inv e raises) at h)
        | inr (r, reaches) ↦
            let scan = scan_rule-reachable rule now inv r reaches in
            let (count, whole) =
              finish_scan-ok rule now n (provision before template_items rule r 0 inv inv)
                (rw scan at h) in
            (r, reaches, count, scan ∙ whole)
      ]
