-- ===== src/Discovery/Job.antt =====
-- `_discovery_job` of app/tasks/scheduler.py: rules of several owners, and a scan that fails.
use ghostmon.Base.{
  ℕ, suc, ◌≡◌, ◌≢◌, refl, ap, ◌∙◌, Bool, true, String, none, List, [], ◌∷◌, ◌++◌, arith, filterb,
  All, has_text, str_eq, eq_iff, Result, ok, raised, Result-cases, os_error, other, integrity_error,
  Bool-cases, inl, inr,
}
use ghostmon.Model.Host.{Host}
use ghostmon.Model.Template.{TemplateItem, DiscoveryRule}
use ghostmon.Probes.{Platform}
use ghostmon.Probes.Answers.{Network}
use ghostmon.Bridge.{Inventory}
use ghostmon.Discovery.{
  name_taken, provision_items, provision, Scanned, finish_scan, reachable_of, scan_rule, after_scan,
  scan_due,
}
use ghostmon.Discovery.Provisioned.{
  provision-others, of_owner, provision-clash, provision-step, provisioned, provisioned-hosts, kept,
}
use ghostmon.Discovery.Scans.{probed, scan_rule-reachable, scan_rule-raised}

name_taken-append :
    (o : ℕ) (a : String) (hs gs : List Host)
    → name_taken o a hs ≡ true
    → name_taken o a (hs ++ gs) ≡ true
name_taken-append o a [] gs h = cc h
name_taken-append o a (x ∷ hs) gs h = ground (arith, h, name_taken-append o a hs gs)

name_taken-cong :
    (o : ℕ) (a b : String) (hs : List Host)
    → str_eq a b ≡ true
    → name_taken o a hs ≡ name_taken o b hs
name_taken-cong o a b hs e = ap (λ z. name_taken o z hs) ((eq_iff a b).0 e)

finish_scan-inventory :
    (rule : DiscoveryRule) (now : ℕ) (q : Inventory × Result ℕ)
    → (finish_scan rule now q).inventory ≡ q.0
unfolding finish_scan
finish_scan-inventory rule now (inv, ok m) = refl
finish_scan-inventory rule now (inv, raised e) = refl

after_scan-hosts :
    (o : ℕ) (created : Result ℕ) (scanned : Scanned) (rest : List DiscoveryRule)
    (more : List DiscoveryRule × Inventory) (hosts : List Host)
    → filterb (of_owner o) scanned.inventory.hosts ≡ hosts
    → filterb (of_owner o) more.1.hosts ≡ hosts
    → filterb (of_owner o) (after_scan created scanned rest more).1.hosts ≡ hosts
unfolding after_scan
after_scan-hosts o (raised integrity_error) scanned rest more hosts own others = own
after_scan-hosts o (raised os_error) scanned rest more hosts own others = others
after_scan-hosts o (raised other) scanned rest more hosts own others = others
after_scan-hosts o (ok n) scanned rest more hosts own others = others

module _ (before : String → String → Bool) (template_items : List TemplateItem) where
  kept_untemplated :
      (rule : DiscoveryRule) (a : String) (committed inv : Inventory)
      → rule.template_id ≡ none
      → kept before template_items rule a committed inv ≡ committed
  unfolding provision_items
  kept_untemplated rule a committed inv plain = rw plain refl

  -- a reachable address that is the name of a host ends the loop
  provision-taken :
      (rule : DiscoveryRule) (a : String) (xs : List String) (n : ℕ) (committed inv : Inventory)
      → rule.template_id ≡ none
      → has_text a xs ≡ true
      → name_taken rule.owner_id a inv.hosts ≡ true
      → provision before template_items rule xs n committed inv
        ≡ (committed, raised integrity_error)
  provision-taken rule a [] n committed inv plain m taken = cc m
  provision-taken rule a (b ∷ rest) n committed inv plain m taken =
      elim (Bool-cases (name_taken rule.owner_id b inv.hosts)) [
        | inl e ↦ provision-clash before template_items rule b rest n committed inv e
        | inr e ↦
            let later : has_text a rest ≡ true =
              ground (arith, m, e, taken, name_taken-cong rule.owner_id a b inv.hosts) in
            let still : name_taken rule.owner_id a
                  (provisioned before template_items rule b inv).hosts
                ≡ true =
              rw (provisioned-hosts before template_items rule b inv)
                (name_taken-append rule.owner_id a inv.hosts _ taken) in
            rw
              (
                provision-step before template_items rule b rest n committed inv e,
                provision-taken rule a rest (suc n)
                    (kept before template_items rule b committed inv)
                    (provisioned before template_items rule b inv) plain later still,
                kept_untemplated rule b committed inv plain,
              )
              refl
      ]

module _ (before : String → String → Bool) (template_items : List TemplateItem) (p : Platform)
    (net : Network) (hosts_of : String → List String) where
  scan_rule-taken :
      (rule : DiscoveryRule) (now : ℕ) (inv : Inventory) (r : List String) (a : String)
      → rule.template_id ≡ none
      → reachable_of p net rule.method rule.port
          (probed before template_items p net hosts_of rule inv)
        ≡ ok r
      → has_text a r ≡ true
      → name_taken rule.owner_id a inv.hosts ≡ true
      → scan_rule before template_items p net hosts_of rule now inv
        ≡ record { inventory = inv; rule = rule; created = raised integrity_error }
  unfolding finish_scan
  scan_rule-taken rule now inv r a plain reaches m taken =
      rw
        (
          scan_rule-reachable before template_items p net hosts_of rule now inv r reaches,
          provision-taken before template_items rule a r 0 inv inv plain m taken,
        )
        refl

  -- If an address that answers to the first rule that is due, which has no template, is the name of a host of
  -- the rule's owner, the job does nothing: no rule is stamped, that one and those behind it, so that
  -- they stay due, and no table changes.
  pub scan_due-taken :
      (rule : DiscoveryRule) (rest : List DiscoveryRule) (now : ℕ) (inv : Inventory)
      (r : List String) (a : String)
      → rule.template_id ≡ none
      → reachable_of p net rule.method rule.port
          (probed before template_items p net hosts_of rule inv)
        ≡ ok r
      → has_text a r ≡ true
      → name_taken rule.owner_id a inv.hosts ≡ true
      → scan_due before template_items p net hosts_of now (rule ∷ rest) inv ≡ (rule ∷ rest, inv)
  unfolding scan_due after_scan
  scan_due-taken rule rest now inv r a plain reaches m taken =
      rw (scan_rule-taken rule now inv r a plain reaches m taken) refl

  scan_rule-others :
      (o : ℕ) (rule : DiscoveryRule) (now : ℕ) (inv : Inventory)
      → rule.owner_id ≢ o
      → filterb
          (of_owner o)
          (scan_rule before template_items p net hosts_of rule now inv).inventory.hosts
        ≡ filterb (of_owner o) inv.hosts
  scan_rule-others o rule now inv foreign =
      elim (Result-cases (
        reachable_of p net rule.method rule.port
          (probed before template_items p net hosts_of rule inv))) [
            | inl (e, raises) ↦
                rw (scan_rule-raised before template_items p net hosts_of rule now inv e raises)
                  refl
            | inr (r, reaches) ↦
                rw
                  (
                    scan_rule-reachable before template_items p net hosts_of rule now inv r reaches,
                    finish_scan-inventory rule now
                        (provision before template_items rule r 0 inv inv),
                  )
                  (provision-others before template_items o rule r 0 inv inv foreign refl)
          ]

  -- The job leaves the hosts of an owner alone that none of the rules that are due belongs to, whether the
  -- scans end well or not.
  pub scan_due-others :
      (o : ℕ) (rules : List DiscoveryRule) (now : ℕ) (inv : Inventory)
      → All (λ (rule : DiscoveryRule). rule.owner_id ≢ o) rules
      → filterb (of_owner o) (scan_due before template_items p net hosts_of now rules inv).1.hosts
        ≡ filterb (of_owner o) inv.hosts
  unfolding scan_due
  scan_due-others o [] now inv foreign = refl
  scan_due-others o (rule ∷ rest) now inv foreign =
      let scanned = scan_rule before template_items p net hosts_of rule now inv in
      let own = scan_rule-others o rule now inv foreign.0 in
      let more = scan_due-others o rest now scanned.inventory foreign.1 in
      after_scan-hosts o scanned.created scanned rest
        (scan_due before template_items p net hosts_of now rest scanned.inventory)
        (filterb (of_owner o) inv.hosts) own (more ∙ own)
