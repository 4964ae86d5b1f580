-- ===== src/Discovery/Provisioned.antt =====
-- `scan_rule` of app/core/services/discovery_service.py: the hosts that the loop adds.
use ghostmon.Base.{
  ℕ, suc, ◌+◌, ◌≡◌, ◌≢◌, refl, sym, ◌∙◌, Bool, true, false, ◌||◌, String, none, some, List, [], ◌∷◌,
  ◌++◌, arith, if◌then◌else◌, length, length-append, filterb, has_text, str_eq, ◌==◌, ok, raised,
  integrity_error, Bool-cases, Option-cases, has_text-cong, inl, inr, ne→==, ==_refl, ok_inj,
}
use ghostmon.Model.Host.{Host}
use ghostmon.Model.Template.{TemplateItem, DiscoveryRule}
use ghostmon.Bridge.{Inventory}
use ghostmon.Templates.{keys_of_host, list_items, create_missing, apply_to_host}
use ghostmon.Discovery.{existing_addresses, name_taken, discovered_host, provision_items, provision}

create_missing-hosts :
    (h : ℕ) (known : List String) (ts : List TemplateItem) (inv : Inventory)
    → (create_missing h known ts inv).inventory.hosts ≡ inv.hosts
unfolding create_missing
create_missing-hosts h known [] inv = refl
create_missing-hosts h known (t ∷ ts) inv = elim (Bool-cases (has_text t.key known)) [
  | inl e ↦ rw e (create_missing-hosts h known ts inv)
  | inr e ↦ rw e (create_missing-hosts h known ts _)
]

-- the addresses of an owner's hosts
abbrev pub owned : ℕ → List Host → List String
owned o [] = []
owned o (h ∷ hs) =
    let rest = owned o hs in
    elim h.address [ none ↦ rest | some a ↦ if h.owner_id == o then a ∷ rest else rest ]

pub has_text-existing :
    (o : ℕ) (addresses : List String) (hs : List Host) (a : String)
    → has_text a addresses ≡ true
    → has_text a (existing_addresses o addresses hs) ≡ has_text a (owned o hs)
unfolding existing_addresses
has_text-existing o addresses [] a m = refl
has_text-existing o addresses (h ∷ hs) a m = elim (Option-cases h.address) [
  | inl e ↦ rw e (has_text-existing o addresses hs a m)
  | inr (b, e) ↦
      rw e (ground (arith, m, has_text-cong a b addresses, has_text-existing o addresses hs a m))
]

owned-append :
    (o : ℕ) (hs : List Host) (h : Host) (a x : String)
    → h.owner_id ≡ o
    → h.address ≡ some a
    → has_text x (owned o (hs ++ h ∷ [])) ≡ (has_text x (owned o hs) || str_eq x a)
owned-append o [] h a x mine e = rw (e, mine, ==_refl) (ground arith)
owned-append o (g ∷ gs) h a x mine e = elim (Option-cases g.address) [
  | inl e' ↦ rw e' (owned-append o gs h a x mine e)
  | inr (b, e') ↦ rw e' (ground (arith, owned-append o gs h a x mine e))
]

discovered-owned :
    (rule : DiscoveryRule) (a x : String) (id : ℕ) (hs : List Host)
    → has_text x (owned rule.owner_id (hs ++ discovered_host rule a id ∷ []))
      ≡ (has_text x (owned rule.owner_id hs) || str_eq x a)
unfolding discovered_host
discovered-owned rule a x id hs =
    owned-append rule.owner_id hs (discovered_host rule a id) a x refl refl

abbrev pub of_owner : ℕ → Host → Bool
of_owner o h = h.owner_id == o

discovered-foreign :
    (o : ℕ) (rule : DiscoveryRule) (a : String) (id : ℕ) (hs : List Host)
    → rule.owner_id ≢ o
    → filterb (of_owner o) (hs ++ discovered_host rule a id ∷ []) ≡ filterb (of_owner o) hs
unfolding discovered_host
discovered-foreign o rule a id [] foreign = rw (ne→== rule.owner_id o foreign) refl
discovered-foreign o rule a id (h ∷ hs) foreign =
    ground (arith, discovered-foreign o rule a id hs foreign)

module _ (before : String → String → Bool) (template_items : List TemplateItem) where
  apply_to_host-hosts :
      (t h : ℕ) (inv : Inventory)
      → (apply_to_host before t h template_items inv).inventory.hosts ≡ inv.hosts
  unfolding apply_to_host
  apply_to_host-hosts t h inv =
      create_missing-hosts h (keys_of_host h inv.items) (list_items before t template_items) inv

  provision_items-hosts :
      (rule : DiscoveryRule) (h : ℕ) (inv : Inventory)
      → (provision_items before template_items rule h inv).inventory.hosts ≡ inv.hosts
  unfolding provision_items
  provision_items-hosts rule h inv = elim (Option-cases rule.template_id) [
    | inl e ↦ rw (e, provision_items) refl
    | inr (t, e) ↦ rw (e, provision_items) (apply_to_host-hosts t h inv)
  ]

  -- the tables after one address
  abbrev pub provisioned : DiscoveryRule → String → Inventory → Inventory
  provisioned rule a inv =
      (provision_items before template_items rule inv.next_id (record inv {
        hosts = inv.hosts ++ discovered_host rule a inv.next_id ∷ [];
        next_id = suc inv.next_id;
      })).inventory

  pub provisioned-hosts :
      (rule : DiscoveryRule) (a : String) (inv : Inventory)
      → (provisioned rule a inv).hosts ≡ inv.hosts ++ discovered_host rule a inv.next_id ∷ []
  provisioned-hosts rule a inv = provision_items-hosts rule inv.next_id (record inv {
    hosts = inv.hosts ++ discovered_host rule a inv.next_id ∷ [];
    next_id = suc inv.next_id;
  })

  -- the tables at the last commit, after one address
  abbrev pub kept : DiscoveryRule → String → Inventory → Inventory → Inventory
  kept rule a committed inv =
      if (provision_items before template_items rule inv.next_id (record inv {
        hosts = inv.hosts ++ discovered_host rule a inv.next_id ∷ [];
        next_id = suc inv.next_id;
      })).created
        == 0
      then committed
      else provisioned rule a inv

  module _ (rule : DiscoveryRule) (a : String) (rest : List String) (n : ℕ)
      (committed inv : Inventory) where
    provision-nil : provision before template_items rule [] n committed inv ≡ (inv, ok n)
    unfolding provision
    provision-nil = refl

    pub provision-clash :
        name_taken rule.owner_id a inv.hosts ≡ true
        → provision before template_items rule (a ∷ rest) n committed inv
          ≡ (committed, raised integrity_error)
    unfolding provision
    provision-clash e = rw e refl

    pub provision-step :
        name_taken rule.owner_id a inv.hosts ≡ false
        → provision before template_items rule (a ∷ rest) n committed inv
          ≡ provision before template_items rule rest
              (suc n)
              (kept rule a committed inv)
              (provisioned rule a inv)
    unfolding provision discovered_host
    provision-step e = rw e refl

  clash-not_ok :
      (rule : DiscoveryRule) (a : String) (rest : List String) (n m : ℕ) (committed inv : Inventory)
      → (provision before template_items rule (a ∷ rest) n committed inv).1 ≡ ok m
      → name_taken rule.owner_id a inv.hosts ≡ false
  clash-not_ok rule a rest n m committed inv h =
      elim (Bool-cases (name_taken rule.owner_id a inv.hosts)) [
        | inl e ↦ cc (rw (provision-clash rule a rest n committed inv e) at h)
        | inr e ↦ e
      ]

  -- a loop that reaches its end adds a host for each address
  pub provision-created :
      (rule : DiscoveryRule) (xs : List String) (n m : ℕ) (committed inv : Inventory)
      → (provision before template_items rule xs n committed inv).1 ≡ ok m
      → (m ≡ n + length xs)
        × (length (provision before template_items rule xs n committed inv).0.hosts
            ≡ length inv.hosts + length xs)
  provision-created rule [] n m committed inv h =
      let nil = provision-nil rule "" [] n committed inv in
      let stopped = ok_inj (rw nil at h) in rw nil (omega (arith, stopped), omega arith)
  provision-created rule (a ∷ rest) n m committed inv h =
      let step =
        provision-step rule a rest n committed inv (clash-not_ok rule a rest n m committed inv h) in
      let (total, rows) =
        provision-created rule rest (suc n) m (kept rule a committed inv) (provisioned rule a inv)
          (rw step at h) in
      let added = length-append inv.hosts (discovered_host rule a inv.next_id ∷ []) in
      let rows' = rw (provisioned-hosts rule a inv) at rows in
      rw step (omega (arith, total), omega (arith, rows', added))

  pub provision-owned :
      (rule : DiscoveryRule) (xs : List String) (n m : ℕ) (committed inv : Inventory) (x : String)
      → (provision before template_items rule xs n committed inv).1 ≡ ok m
      → has_text x
          (owned rule.owner_id (provision before template_items rule xs n committed inv).0.hosts)
        ≡ (has_text x (owned rule.owner_id inv.hosts) || has_text x xs)
  provision-owned rule [] n m committed inv x h =
      rw (provision-nil rule "" [] n committed inv) (ground arith)
  provision-owned rule (a ∷ rest) n m committed inv x h =
      let step =
        provision-step rule a rest n committed inv (clash-not_ok rule a rest n m committed inv h) in
      let there =
        provision-owned rule rest (suc n) m (kept rule a committed inv) (provisioned rule a inv) x
          (rw step at h) in
      let there' = rw (provisioned-hosts rule a inv) at there in
      let new = discovered-owned rule a x inv.next_id inv.hosts in
      rw step (ground (arith, there', new))

  provisioned-foreign :
      (o : ℕ) (rule : DiscoveryRule) (a : String) (inv : Inventory)
      → rule.owner_id ≢ o
      → filterb (of_owner o) (provisioned rule a inv).hosts ≡ filterb (of_owner o) inv.hosts
  provisioned-foreign o rule a inv foreign =
      rw (provisioned-hosts rule a inv) (discovered-foreign o rule a inv.next_id inv.hosts foreign)

  kept-foreign :
      (o : ℕ) (rule : DiscoveryRule) (a : String) (committed inv : Inventory)
      → rule.owner_id ≢ o
      → filterb (of_owner o) committed.hosts ≡ filterb (of_owner o) inv.hosts
      → filterb (of_owner o) (kept rule a committed inv).hosts
        ≡ filterb (of_owner o) (provisioned rule a inv).hosts
  kept-foreign o rule a committed inv foreign same =
      let after = provisioned-foreign o rule a inv foreign in
      let added : Inventory = record inv {
        hosts = inv.hosts ++ discovered_host rule a inv.next_id ∷ [];
        next_id = suc inv.next_id;
      } in
      elim (Bool-cases
        ((provision_items before template_items rule inv.next_id added).created == 0)) [
          | inl e ↦ rw e (same ∙ sym after)
          | inr e ↦ rw e refl
        ]

  -- another owner's hosts are left alone, on failure too
  pub provision-others :
      (o : ℕ) (rule : DiscoveryRule) (xs : List String) (n : ℕ) (committed inv : Inventory)
      → rule.owner_id ≢ o
      → filterb (of_owner o) committed.hosts ≡ filterb (of_owner o) inv.hosts
      → filterb (of_owner o) (provision before template_items rule xs n committed inv).0.hosts
        ≡ filterb (of_owner o) inv.hosts
  provision-others o rule [] n committed inv foreign same =
      rw (provision-nil rule "" [] n committed inv) refl
  provision-others o rule (a ∷ rest) n committed inv foreign same =
      let after = provisioned-foreign o rule a inv foreign in
      elim (Bool-cases (name_taken rule.owner_id a inv.hosts)) [
        | inl e ↦ rw (provision-clash rule a rest n committed inv e) same
        | inr e ↦ rw (provision-step rule a rest n committed inv e) (
            provision-others o rule rest (suc n) (kept rule a committed inv)
              (provisioned rule a inv) foreign (kept-foreign o rule a committed inv foreign same)
            ∙ after)
      ]
