-- ===== src/Api/Rows.antt =====
-- The requests of app/api/routes/hosts.py keep the keys of the tables, and the owners of the hosts behind the
-- monitors.
use ghostmon.Base.{
  ℕ, ◌<◌, ◌≡◌, refl, ap, ◌∙◌, ◌&&◌, some, List, [], ◌∷◌, ◌++◌, map, arith, ◌==◌, All-at, All-append,
  All-weaken, All-join, Bool-cases, Option-cases, inl, inr, Result, ok, raised, Memᴰ, find-mem,
}
use ghostmon.Model.Monitor.{Monitor}
use ghostmon.Model.Host.{Host, Item}
use ghostmon.Model.Channel.{ChannelLink}
use ghostmon.Secrets.{Fernet}
use ghostmon.Hosts.{ItemCreate, create_item}
use ghostmon.Api.{Site, get_channel, link_channel, unlink_channel}
use ghostmon.Api.Monitors.{get_monitor, attach_channel, detach_channel}
use ghostmon.Api.Hosts.{
  get_host, get_item, HostCreate, HostUpdate, ItemUpdate, new_host, other_named, updated_host,
  other_keyed, updated_item, create_host, store_host, update_host, delete_host, add_item,
  create_host_item, store_item, update_item, delete_item, attach_host_channel, detach_host_channel,
}
use ghostmon.Api.Kept.{Distinct-added, Distinct-map, replace, key-replace, All-replace}
use ghostmon.Api.Untouched.{IsSite}
use ghostmon.Api.Foreign.{updated_host-keys, updated_item-keys}
use ghostmon.Api.WellFormed.{Behind, Below, remove_host-IsSite, remove_items-IsSite}

module _ {F : Type 0} where
  relinked-IsSite :
      (s : Site F) (ms hs : List ChannelLink)
      → IsSite s
      → IsSite (record s { monitor_channels = ms; host_channels = hs })
  relinked-IsSite s ms hs w = record {
    monitor_ids = w.monitor_ids;
    host_ids = w.host_ids;
    item_ids = w.item_ids;
    backed = w.backed;
    monitor_fresh = w.monitor_fresh;
    host_fresh = w.host_fresh;
    item_fresh = w.item_fresh;
    behind_fresh = w.behind_fresh;
  }

  pub create_host-IsSite :
      (u : ℕ) (payload : HostCreate) (s : Site F) → IsSite s → IsSite (create_host u payload s).1
  unfolding create_host new_host
  create_host-IsSite u payload s w =
      let row = new_host s.next_id payload u in
      elim (Bool-cases (other_named row s.hosts)) [
        | inl e ↦ rw (e, create_host) w
        | inr e ↦
            rw (e, create_host)
              (record {
                monitor_ids = w.monitor_ids;
                host_ids =
                    Distinct-added (λ (h : Host). h.id) s.next_id s.hosts row w.host_ids
                      w.host_fresh refl;
                item_ids = w.item_ids;
                backed =
                    All-join (Behind s.hosts) (Below s.next_id) (Behind (s.hosts ++ row ∷ []))
                      (λ m own below.
                        All-append (λ (h : Host). m.host_id ≡ some h.id → h.owner_id ≡ m.owner_id)
                          s.hosts (row ∷ []) own (λ e. ground (arith, below s.next_id e), tt))
                      s.monitors w.backed w.behind_fresh;
                monitor_fresh =
                    All-weaken (λ (m : Monitor). m.id < s.next_id) _ (λ x h. omega (arith, h))
                      s.monitors w.monitor_fresh;
                host_fresh =
                    All-append _ s.hosts (row ∷ [])
                      (All-weaken (λ (h : Host). h.id < s.next_id) _ (λ x h. omega (arith, h))
                        s.hosts w.host_fresh)
                      (omega arith, tt);
                item_fresh =
                    All-weaken (λ (i : Item). i.id < s.next_id) _ (λ x h. omega (arith, h)) s.items
                      w.item_fresh;
                behind_fresh =
                    All-weaken (Below s.next_id) _ (λ m b k e. ground (arith, b k e)) s.monitors
                      w.behind_fresh;
              })
      ]

  store_host-IsSite :
      (h : Host) (s : Site F) (r : Result Host)
      → IsSite s
      → Memᴰ h s.hosts
      → ((new : Host) → r ≡ ok new → (new.id ≡ h.id) × (new.owner_id ≡ h.owner_id))
      → IsSite (store_host r s).1
  unfolding store_host
  store_host-IsSite h s (raised e) w there keys = w
  store_host-IsSite h s (ok new) w there keys =
      let (same, owner) = keys new refl in
      let id : Host → ℕ = λ x. x.id in
      elim (Bool-cases (other_named new s.hosts)) [
        | inl e ↦ rw (e, store_host) w
        | inr e ↦
            rw (e, store_host)
              (record {
                monitor_ids = w.monitor_ids;
                host_ids = Distinct-map id (replace id new) s.hosts (key-replace id new) w.host_ids;
                item_ids = w.item_ids;
                backed =
                    All-weaken (Behind s.hosts) (Behind (map (replace id new) s.hosts))
                      (λ m own.
                        All-replace id
                          (λ (x : Host). m.host_id ≡ some x.id → x.owner_id ≡ m.owner_id) new
                          s.hosts
                          (λ b.
                            owner
                            ∙ All-at (λ (x : Host). m.host_id ≡ some x.id → x.owner_id ≡ m.owner_id)
                                s.hosts own there (b ∙ ap some same))
                          own)
                      s.monitors w.backed;
                monitor_fresh = w.monitor_fresh;
                host_fresh =
                    All-replace id (λ (x : Host). x.id < s.next_id) new s.hosts
                      (rw same (All-at (λ (x : Host). x.id < s.next_id) s.hosts w.host_fresh there))
                      w.host_fresh;
                item_fresh = w.item_fresh;
                behind_fresh = w.behind_fresh;
              })
      ]

  pub update_host-IsSite :
      (u k : ℕ) (payload : HostUpdate) (s : Site F)
      → IsSite s
      → IsSite (update_host u k payload s).1
  unfolding update_host get_host
  update_host-IsSite u k payload s w = elim (Option-cases (get_host k u s.hosts)) [
    | inl e ↦ rw (e, update_host) w
    | inr (h, e) ↦
        rw (e, update_host)
          (store_host-IsSite h s (updated_host h payload) w
            (find-mem (λ (x : Host). x.id == k && x.owner_id == u) s.hosts {x = h} e).0
            (λ new. updated_host-keys h new payload))
  ]

  pub delete_host-IsSite : (u k : ℕ) (s : Site F) → IsSite s → IsSite (delete_host u k s).1
  unfolding delete_host
  delete_host-IsSite u k s w = elim (Option-cases (get_host k u s.hosts)) [
    | inl e ↦ rw (e, delete_host) w
    | inr (h, e) ↦ rw (e, delete_host) (remove_host-IsSite k s w)
  ]

  add_item-IsSite : (i : Item) (s : Site F) → IsSite s → i.id ≡ s.next_id → IsSite (add_item i s).1
  unfolding add_item
  add_item-IsSite i s w new = elim (Bool-cases (other_keyed i s.items)) [
    | inl e ↦ rw (e, add_item) w
    | inr e ↦
        rw (e, add_item)
          (record {
            monitor_ids = w.monitor_ids;
            host_ids = w.host_ids;
            item_ids =
                Distinct-added (λ (x : Item). x.id) s.next_id s.items i w.item_ids w.item_fresh new;
            backed = w.backed;
            monitor_fresh =
                All-weaken (λ (m : Monitor). m.id < s.next_id) _ (λ x h. omega (arith, h))
                  s.monitors w.monitor_fresh;
            host_fresh =
                All-weaken (λ (h : Host). h.id < s.next_id) _ (λ x h. omega (arith, h)) s.hosts
                  w.host_fresh;
            item_fresh =
                All-append _ s.items (i ∷ [])
                  (All-weaken (λ (x : Item). x.id < s.next_id) _ (λ x h. omega (arith, h)) s.items
                    w.item_fresh)
                  (omega (arith, new), tt);
            behind_fresh =
                All-weaken (Below s.next_id) _ (λ m b k e. ground (arith, b k e)) s.monitors
                  w.behind_fresh;
          })
  ]

  pub create_item-IsSite :
      (f : Fernet) (u k : ℕ) (payload : ItemCreate) (s : Site F)
      → IsSite s
      → IsSite (create_host_item f u k payload s).1
  unfolding create_host_item create_item
  create_item-IsSite f u k payload s w = elim (Option-cases (get_host k u s.hosts)) [
    | inl e ↦ rw (e, create_host_item) w
    | inr (h, e) ↦
        rw (e, create_host_item) (add_item-IsSite (create_item f s.next_id k payload) s w refl)
  ]

  store_item-IsSite :
      (i : Item) (s : Site F) (r : Result Item)
      → IsSite s
      → Memᴰ i s.items
      → ((new : Item) → r ≡ ok new → (new.id ≡ i.id) × (new.host_id ≡ i.host_id))
      → IsSite (store_item r s).1
  unfolding store_item
  store_item-IsSite i s (raised e) w there keys = w
  store_item-IsSite i s (ok new) w there keys =
      let (same, host) = keys new refl in
      let id : Item → ℕ = λ x. x.id in
      elim (Bool-cases (other_keyed new s.items)) [
        | inl e ↦ rw (e, store_item) w
        | inr e ↦
            rw (e, store_item)
              (record {
                monitor_ids = w.monitor_ids;
                host_ids = w.host_ids;
                item_ids = Distinct-map id (replace id new) s.items (key-replace id new) w.item_ids;
                backed = w.backed;
                monitor_fresh = w.monitor_fresh;
                host_fresh = w.host_fresh;
                item_fresh =
                    All-replace id (λ (x : Item). x.id < s.next_id) new s.items
                      (rw same (All-at (λ (x : Item). x.id < s.next_id) s.items w.item_fresh there))
                      w.item_fresh;
                behind_fresh = w.behind_fresh;
              })
      ]

  pub update_item-IsSite :
      (f : Fernet) (u k j : ℕ) (payload : ItemUpdate) (s : Site F)
      → IsSite s
      → IsSite (update_item f u k j payload s).1
  unfolding update_item get_item
  update_item-IsSite f u k j payload s w = elim (Option-cases (get_host k u s.hosts)) [
    | inl e ↦ rw (e, update_item) w
    | inr (h, e) ↦ elim (Option-cases (get_item j k s.items)) [
      | inl e' ↦ rw (e, update_item, e') w
      | inr (i, e') ↦
          rw (e, update_item, e')
            (store_item-IsSite i s (updated_item f s.next_id i payload) w
              (find-mem (λ (x : Item). x.id == j && x.host_id == k) s.items {x = i} e').0
              (λ new. updated_item-keys f s.next_id i new payload))
    ]
  ]

  pub delete_item-IsSite : (u k j : ℕ) (s : Site F) → IsSite s → IsSite (delete_item u k j s).1
  unfolding delete_item
  delete_item-IsSite u k j s w = elim (Option-cases (get_host k u s.hosts)) [
    | inl e ↦ rw (e, delete_item) w
    | inr (h, e) ↦ elim (Option-cases (get_item j k s.items)) [
      | inl e' ↦ rw (e, delete_item, e') w
      | inr (i, e') ↦ rw (e, delete_item, e') (remove_items-IsSite (λ (x : Item). x.id == j) s w)
    ]
  ]

  pub attach_channel-IsSite :
      (u k c : ℕ) (s : Site F) → IsSite s → IsSite (attach_channel u k c s).1
  unfolding attach_channel
  attach_channel-IsSite u k c s w = elim (Option-cases (get_monitor k u s.monitors)) [
    | inl e ↦ rw (e, attach_channel) w
    | inr (x, e) ↦ elim (Option-cases (get_channel c u s.channels)) [
      | inl e' ↦ rw (e, attach_channel, e') w
      | inr (y, e') ↦
          rw (e, attach_channel, e')
            (relinked-IsSite s (link_channel k c s.monitor_channels) s.host_channels w)
    ]
  ]

  pub detach_channel-IsSite :
      (u k c : ℕ) (s : Site F) → IsSite s → IsSite (detach_channel u k c s).1
  unfolding detach_channel
  detach_channel-IsSite u k c s w = elim (Option-cases (get_monitor k u s.monitors)) [
    | inl e ↦ rw (e, detach_channel) w
    | inr (x, e) ↦ elim (Option-cases (get_channel c u s.channels)) [
      | inl e' ↦ rw (e, detach_channel, e') w
      | inr (y, e') ↦
          rw (e, detach_channel, e')
            (relinked-IsSite s (unlink_channel k c s.monitor_channels) s.host_channels w)
    ]
  ]

  pub attach_host_channel-IsSite :
      (u k c : ℕ) (s : Site F) → IsSite s → IsSite (attach_host_channel u k c s).1
  unfolding attach_host_channel
  attach_host_channel-IsSite u k c s w = elim (Option-cases (get_host k u s.hosts)) [
    | inl e ↦ rw (e, attach_host_channel) w
    | inr (x, e) ↦ elim (Option-cases (get_channel c u s.channels)) [
      | inl e' ↦ rw (e, attach_host_channel, e') w
      | inr (y, e') ↦
          rw (e, attach_host_channel, e')
            (relinked-IsSite s s.monitor_channels (link_channel k c s.host_channels) w)
    ]
  ]

  pub detach_host_channel-IsSite :
      (u k c : ℕ) (s : Site F) → IsSite s → IsSite (detach_host_channel u k c s).1
  unfolding detach_host_channel
  detach_host_channel-IsSite u k c s w = elim (Option-cases (get_host k u s.hosts)) [
    | inl e ↦ rw (e, detach_host_channel) w
    | inr (x, e) ↦ elim (Option-cases (get_channel c u s.channels)) [
      | inl e' ↦ rw (e, detach_host_channel, e') w
      | inr (y, e') ↦
          rw (e, detach_host_channel, e')
            (relinked-IsSite s s.monitor_channels (unlink_channel k c s.host_channels) w)
    ]
  ]
