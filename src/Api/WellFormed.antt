-- ===== src/Api/WellFormed.antt =====
-- The requests of app/api/routes/monitors.py and hosts.py keep the keys of the tables, and the owners of
-- the hosts behind the monitors.
use ghostmon.Base.{
  ℕ, suc, ◌<◌, ◌≡◌, refl, sym, ◌∙◌, Bool, not, Option, none, some, List, [], ◌∷◌, arith, ◌==◌,
  filterb, find, All, All-at, All-append, All-weaken, All-filterb, All-intro, Distinct-filterb,
  Option-cases, inl, inr, Result, ok, raised, Memᴰ,
}
use ghostmon.Model.Monitor.{Monitor}
use ghostmon.Model.Host.{Host, Item}
use ghostmon.Api.{Site, remove_triggers, remove_items, remove_host, remove_monitor, unset}
use ghostmon.Api.Monitors.{
  get_monitor, new_monitor, updated_monitor, MonitorCreate, MonitorUpdate, create_monitor,
  store_monitor, update_monitor, delete_backing_host, delete_monitor,
}
use ghostmon.Api.Kept.{Distinct-added, Distinct-map, replace, key-replace, All-replace, All-map}
use ghostmon.Api.Untouched.{IsSite, found_monitor, updated_monitor-keys}

unset-some : (k j : ℕ) (o : Option ℕ) → unset k o ≡ some j → o ≡ some j
unset-some k j none h = h
unset-some k j (some i) h = ground (arith, h)

abbrev pub Behind : List Host → Monitor → Type 0
Behind hosts m = All (λ (h : Host). m.host_id ≡ some h.id → h.owner_id ≡ m.owner_id) hosts

abbrev pub Below : ℕ → Monitor → Type 0
Below n m = (k : ℕ) → m.host_id ≡ some k → k < n

module _ {F : Type 0} where
  pub remove_items-IsSite :
      (gone : Item → Bool) (s : Site F) → IsSite s → IsSite (remove_items gone s)
  unfolding remove_items remove_triggers
  remove_items-IsSite gone s w = record {
    monitor_ids = w.monitor_ids;
    host_ids = w.host_ids;
    item_ids = Distinct-filterb (λ (i : Item). i.id) (λ i. not (gone i)) s.items w.item_ids;
    backed = w.backed;
    monitor_fresh = w.monitor_fresh;
    host_fresh = w.host_fresh;
    item_fresh = All-filterb _ (λ i. not (gone i)) s.items w.item_fresh;
    behind_fresh = w.behind_fresh;
  }

  remove_monitor-IsSite : (k : ℕ) (s : Site F) → IsSite s → IsSite (remove_monitor k s)
  unfolding remove_monitor remove_triggers
  remove_monitor-IsSite k s w =
      let kept : Monitor → Bool = λ m. not (m.id == k) in
      record {
        monitor_ids = Distinct-filterb (λ (m : Monitor). m.id) kept s.monitors w.monitor_ids;
        host_ids = w.host_ids;
        item_ids = w.item_ids;
        backed = All-filterb _ kept s.monitors w.backed;
        monitor_fresh = All-filterb _ kept s.monitors w.monitor_fresh;
        host_fresh = w.host_fresh;
        item_fresh = w.item_fresh;
        behind_fresh = All-filterb _ kept s.monitors w.behind_fresh;
      }

  pub remove_host-IsSite : (k : ℕ) (s : Site F) → IsSite s → IsSite (remove_host k s)
  unfolding remove_host
  remove_host-IsSite k s w =
      let kept : Host → Bool = λ h. not (h.id == k) in
      let cleared : Monitor → Monitor = λ m. record m { host_id = unset k m.host_id } in
      remove_items-IsSite (λ (i : Item). i.host_id == k) _
        (record {
          monitor_ids =
              Distinct-map (λ (m : Monitor). m.id) cleared s.monitors (λ m. refl) w.monitor_ids;
          host_ids = Distinct-filterb (λ (h : Host). h.id) kept s.hosts w.host_ids;
          item_ids = w.item_ids;
          backed =
              All-map (Behind s.hosts) (Behind (filterb kept s.hosts)) cleared
                (λ m b. All-filterb _ kept s.hosts (
                  All-weaken (λ (h : Host). m.host_id ≡ some h.id → h.owner_id ≡ m.owner_id) _
                    (λ h own e. own (unset-some k h.id m.host_id e)) s.hosts b))
                s.monitors w.backed;
          monitor_fresh =
              All-map (λ (m : Monitor). m.id < s.next_id) (λ m. m.id < s.next_id) cleared (λ m h. h)
                s.monitors w.monitor_fresh;
          host_fresh = All-filterb _ kept s.hosts w.host_fresh;
          item_fresh = w.item_fresh;
          behind_fresh =
              All-map (Below s.next_id) (Below s.next_id) cleared
                (λ m b j e. b j (unset-some k j m.host_id e)) s.monitors w.behind_fresh;
        })

  backing-IsSite : (b : Option ℕ) (s : Site F) → IsSite s → IsSite (delete_backing_host b s)
  unfolding delete_backing_host
  backing-IsSite none s w = w
  backing-IsSite (some k) s w = elim (Option-cases (find (λ (h : Host). h.id == k) s.hosts)) [
    | inl e ↦ rw (e, delete_backing_host) w
    | inr (h, e) ↦ rw (e, delete_backing_host) (remove_host-IsSite k s w)
  ]

  pub delete_monitor-IsSite : (u k : ℕ) (s : Site F) → IsSite s → IsSite (delete_monitor u k s).1
  unfolding delete_monitor
  delete_monitor-IsSite u k s w = elim (Option-cases (get_monitor k u s.monitors)) [
    | inl e ↦ rw (e, delete_monitor) w
    | inr (m, e) ↦
        rw (e, delete_monitor)
          (backing-IsSite m.host_id (remove_monitor k s) (remove_monitor-IsSite k s w))
  ]

  pub create_monitor-IsSite :
      (u : ℕ) (payload : MonitorCreate) (s : Site F)
      → IsSite s
      → IsSite (create_monitor u payload s).1
  unfolding create_monitor new_monitor
  create_monitor-IsSite u payload s w =
      let row = new_monitor s.next_id payload u in
      record {
        monitor_ids =
            Distinct-added (λ (m : Monitor). m.id) s.next_id s.monitors row w.monitor_ids
              w.monitor_fresh refl;
        host_ids = w.host_ids;
        item_ids = w.item_ids;
        backed =
            All-append (Behind s.hosts) s.monitors (row ∷ []) w.backed
              (All-intro _ (λ h e. cc e) s.hosts, tt);
        monitor_fresh =
            All-append _ s.monitors (row ∷ [])
              (All-weaken (λ (m : Monitor). m.id < s.next_id) _ (λ m h. omega (arith, h)) s.monitors
                w.monitor_fresh)
              (omega arith, tt);
        host_fresh =
            All-weaken (λ (h : Host). h.id < s.next_id) _ (λ x h. omega (arith, h)) s.hosts
              w.host_fresh;
        item_fresh =
            All-weaken (λ (i : Item). i.id < s.next_id) _ (λ x h. omega (arith, h)) s.items
              w.item_fresh;
        behind_fresh =
            All-append (Below (suc s.next_id)) s.monitors (row ∷ [])
              (All-weaken (Below s.next_id) _ (λ m b k e. ground (arith, b k e)) s.monitors
                w.behind_fresh)
              (λ k e. cc e, tt);
      }

  store_monitor-IsSite :
      (m : Monitor) (s : Site F) (r : Result Monitor)
      → IsSite s
      → Memᴰ m s.monitors
      → ((new : Monitor)
          → r ≡ ok new
          → (new.id ≡ m.id) × (new.owner_id ≡ m.owner_id) × (new.host_id ≡ m.host_id))
      → IsSite (store_monitor r s).1
  unfolding store_monitor
  store_monitor-IsSite m s (raised e) w there keys = w
  store_monitor-IsSite m s (ok new) w there keys =
      let (same, owner, host) = keys new refl in
      let id : Monitor → ℕ = λ m. m.id in
      let behind : Behind s.hosts new =
        rw (host, owner) (All-at (Behind s.hosts) s.monitors w.backed there) in
      record {
        monitor_ids =
            Distinct-map id (replace id new) s.monitors (key-replace id new) w.monitor_ids;
        host_ids = w.host_ids;
        item_ids = w.item_ids;
        backed = All-replace id (Behind s.hosts) new s.monitors behind w.backed;
        monitor_fresh =
            All-replace id (λ (m : Monitor). m.id < s.next_id) new s.monitors
              (rw same
                (All-at (λ (m : Monitor). m.id < s.next_id) s.monitors w.monitor_fresh there))
              w.monitor_fresh;
        host_fresh = w.host_fresh;
        item_fresh = w.item_fresh;
        behind_fresh =
            All-replace id (Below s.next_id) new s.monitors
              (λ k e. All-at (Below s.next_id) s.monitors w.behind_fresh there k (sym host ∙ e))
              w.behind_fresh;
      }

  pub update_monitor-IsSite :
      (u k : ℕ) (payload : MonitorUpdate) (s : Site F)
      → IsSite s
      → IsSite (update_monitor u k payload s).1
  unfolding update_monitor
  update_monitor-IsSite u k payload s w = elim (Option-cases (get_monitor k u s.monitors)) [
    | inl e ↦ rw (e, update_monitor) w
    | inr (m, e) ↦
        rw (e, update_monitor)
          (store_monitor-IsSite m s (updated_monitor m payload) w
            (found_monitor u k m s.monitors e).0 (λ new. updated_monitor-keys m new payload))
  ]
