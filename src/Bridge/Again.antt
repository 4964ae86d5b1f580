-- ===== src/Bridge/Again.antt =====
-- `ensure_backing_items` of app/core/services/monitor_host_bridge.py, called twice.
use ghostmon.Base.{
  or_else-none, find-append, ℕ, ◌≡◌, refl, false, String, Option, none, some, List, [], ◌∷◌, ◌++◌,
  ◌==◌, str_eq, find, Option-cases, Bool-cases, inl, inr, ◌∙◌, ==_refl, str_eq_refl,
}
use ghostmon.Model.Monitor.{Monitor}
use ghostmon.Model.Host.{Item, ItemValueType, float, unsigned, text}
use ghostmon.Bridge.{
  Inventory, BackingItems, item_by_key, ensure, ensure_items, ensure_host, ensure_backing_items,
  latency_item_key, status_item_key, error_item_key,
}

-- the item of the host with the key
abbrev Finds : ℕ → String → Item → Inventory → Type 0
Finds h k i inv = item_by_key h k inv.items ≡ some i

append-Finds :
    (h : ℕ) (j : String) (items : List Item) (y i : Item)
    → item_by_key h j items ≡ some i
    → item_by_key h j (items ++ y ∷ []) ≡ some i
unfolding item_by_key
append-Finds h j items y i found = rw (find-append, found) refl

append-new :
    (h : ℕ) (items : List Item) (y : Item)
    → item_by_key h y.key items ≡ none
    → y.host_id ≡ h
    → item_by_key h y.key (items ++ y ∷ []) ≡ some y
unfolding item_by_key
append-new h items y absent mine = rw (find-append, absent, mine, ==_refl, str_eq_refl) refl

append-other :
    (h : ℕ) (j : String) (items : List Item) (y : Item)
    → str_eq y.key j ≡ false
    → item_by_key h j (items ++ y ∷ []) ≡ item_by_key h j items
unfolding item_by_key
append-other h j items y other =
    rw (find-append, other)
      (elim (Bool-cases (y.host_id == h)) [
        | inl e ↦ rw e (or_else-none (find _ items))
        | inr e ↦ rw e (or_else-none (find _ items))
      ])

module _ (existing : List Item) (h n : ℕ) (k name : String) (vt : ItemValueType) (u : Option String)
    (inv : Inventory) where
  -- what is found stays what is found
  ensure-Finds :
      (j : String) (i : Item)
      → Finds h j i inv
      → Finds h j i (ensure existing h n k name vt u inv).inventory
  unfolding ensure
  ensure-Finds j i found = elim (Option-cases (item_by_key h k existing)) [
    | inr (x, e) ↦ rw (e, ensure) found
    | inl e ↦ rw (e, ensure) (append-Finds h j inv.items _ i found)
  ]

  -- the item that is returned is found, if the table has it exactly if `existing` had it
  ensure-Finds_own :
      item_by_key h k inv.items ≡ item_by_key h k existing
      → Finds h k
          (ensure existing h n k name vt u inv).item
          (ensure existing h n k name vt u inv).inventory
  unfolding ensure
  ensure-Finds_own same = elim (Option-cases (item_by_key h k existing)) [
    | inr (x, e) ↦ rw (e, ensure) (same ∙ e)
    | inl e ↦ rw (e, ensure) (append-new h inv.items _ (same ∙ e) refl)
  ]

  -- the other keys are looked up as before
  ensure-other :
      (j : String)
      → str_eq k j ≡ false
      → item_by_key h j (ensure existing h n k name vt u inv).inventory.items
        ≡ item_by_key h j inv.items
  unfolding ensure
  ensure-other j other = elim (Option-cases (item_by_key h k existing)) [
    | inr (x, e) ↦ rw (e, ensure) refl
    | inl e ↦ rw (e, ensure) (append-other h j inv.items _ other)
  ]

  -- where the key is found already, the item is returned and nothing is added
  ensure-found :
      (i : Item)
      → item_by_key h k existing ≡ some i
      → ensure existing h n k name vt u inv ≡ record { item = i; inventory = inv }
  unfolding ensure
  ensure-found i found = rw (found, ensure) refl

-- all three items of a host are found
abbrev AllFound : ℕ → BackingItems → Inventory → Type 0
AllFound h items inv =
    Finds h latency_item_key items.latency inv
    × Finds h status_item_key items.status inv
    × Finds h error_item_key items.error inv

module _ (h n : ℕ) (inv : Inventory) where
  ensure_items-AllFound : AllFound h (ensure_items h n inv).items (ensure_items h n inv).inventory
  unfolding ensure_items
  ensure_items-AllFound =
      let one = ensure inv.items h n latency_item_key "Latency" float (some "ms") inv in
      let two = ensure inv.items h n status_item_key "Status" unsigned none one.inventory in
      let latency =
        ensure-Finds_own inv.items h n latency_item_key "Latency" float (some "ms") inv refl in
      let same = ensure-other inv.items h n latency_item_key "Latency" float (some "ms") inv in
      let same_two =
        ensure-other inv.items h n status_item_key "Status" unsigned none one.inventory in
      let status =
        ensure-Finds_own inv.items h n status_item_key "Status" unsigned none one.inventory
          (same status_item_key refl) in
      let later_two =
        ensure-Finds inv.items h n status_item_key "Status" unsigned none one.inventory in
      let later_three = ensure-Finds inv.items h n error_item_key "Error" text none two.inventory in
      (
        later_three latency_item_key one.item (later_two latency_item_key one.item latency),
        later_three status_item_key two.item status,
        ensure-Finds_own inv.items h n error_item_key "Error" text none two.inventory
            (same_two error_item_key refl ∙ same error_item_key refl),
      )

  ensure_items-found :
      (items : BackingItems)
      → AllFound h items inv
      → ensure_items h n inv ≡ record { items = items; host_id = h; inventory = inv }
  unfolding ensure_items
  ensure_items-found items found =
      rw
        (
          ensure-found inv.items h n latency_item_key "Latency" float (some "ms") inv items.latency
              found.0,
          ensure-found inv.items h n status_item_key "Status" unsigned none inv items.status
              found.1,
          ensure-found inv.items h n error_item_key "Error" text none inv items.error found.2,
        )
        refl

ensured :
    (h n k : ℕ) (inv : Inventory)
    → ensure_items h k (ensure_items h n inv).inventory ≡ ensure_items h n inv
unfolding ensure_items
ensured h n k inv =
    ensure_items-found h k (ensure_items h n inv).inventory (ensure_items h n inv).items
      (ensure_items-AllFound h n inv)

module _ (short_hex : ℕ → String) where
  -- Provisioning a monitor again, with the host that it then has and whatever its interval has become,
  -- returns the same host and items as the first time, and adds no row.
  pub ensure_backing_items_again :
      (m : Monitor) (interval : ℕ) (inv : Inventory)
      → let r = ensure_backing_items short_hex m inv in
        ensure_backing_items short_hex
          (record m { host_id = some r.host_id; interval = interval })
          r.inventory
        ≡ r
  unfolding ensure_backing_items ensure_items
  ensure_backing_items_again m interval inv =
      let host = ensure_host short_hex m.host_id m inv in ensured host.0 m.interval interval host.1
