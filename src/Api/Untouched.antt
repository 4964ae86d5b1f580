-- ===== src/Api/Untouched.antt =====
-- What the requests of app/api/routes/monitors.py and hosts.py leave of the rows of another owner: the
-- deletions, and the requests on monitors.
use ghostmon.Base.{
  ◌<◌, ℕ, ◌≡◌, ◌≢◌, refl, sym, ap, ◌∙◌, Bool, true, false, ◌&&◌, not, Option, none, some, List, map,
  arith, ◌==◌, filterb, find, elem, All, All-at, All-weaken, All-filterb, All-intro, Distinct,
  Bool-cases, Option-cases, inl, inr, ==→eq, ne→==, Result, ok, raised, Memᴰ, find-mem, ok_inj,
  call_returned, set_required,
}
use ghostmon.Model.Monitor.{Monitor}
use ghostmon.Model.Host.{Host, Item}
use ghostmon.Api.{
  Site, remove_triggers, remove_items, remove_host, remove_monitor, get_channel, unset,
}
use ghostmon.Api.Monitors.{
  get_monitor, new_monitor, updated_monitor, MonitorCreate, MonitorUpdate, create_monitor,
  store_monitor, update_monitor, delete_backing_host, delete_monitor, attach_channel,
  detach_channel,
}
use ghostmon.Api.Lists.{
  filterb-deleted, filterb-changed, filterb-added, filterb-replaced, foreign_key, not_theirs,
}

abbrev pub monitor_of : ℕ → Monitor → Bool
monitor_of o m = m.owner_id == o

abbrev pub host_of : ℕ → Host → Bool
host_of o h = h.owner_id == o

-- the item is on a host of the owner
abbrev pub item_of : ℕ → List Host → Item → Bool
item_of o hosts i = elem i.host_id (map (λ (h : Host). h.id) (filterb (host_of o) hosts))

unset-other : (k : ℕ) (o : Option ℕ) → o ≢ some k → unset k o ≡ o
unset-other k none other = refl
unset-other k (some j) other = elim (Bool-cases (j == k)) [
  | inl e ↦ elim (other (ap some (==→eq j k e))) [ ]
  | inr e ↦ rw e refl
]

-- the host behind a monitor belongs to the owner of the monitor
abbrev pub IsBacked : List Monitor → List Host → Type 0
IsBacked monitors hosts =
    All (λ (m : Monitor). All (λ (h : Host). m.host_id ≡ some h.id → h.owner_id ≡ m.owner_id) hosts)
      monitors

-- a monitor's keys do not change
pub updated_monitor-keys :
    (m new : Monitor) (payload : MonitorUpdate)
    → updated_monitor m payload ≡ ok new
    → (new.id ≡ m.id) × (new.owner_id ≡ m.owner_id) × (new.host_id ≡ m.host_id)
unfolding updated_monitor
updated_monitor-keys m new payload h =
    let (name, _, h1) = call_returned (set_required payload.name m.name) _ h in
    let (kind, _, h2) = call_returned (set_required payload.kind m.kind) _ h1 in
    let (url, _, h3) = call_returned (set_required payload.url m.url) _ h2 in
    let (interval, _, h4) = call_returned (set_required payload.interval m.interval) _ h3 in
    let (retries, _, h5) = call_returned (set_required payload.retries m.retries) _ h4 in
    let (pause, _, h6) =
      call_returned (set_required payload.retry_interval m.retry_interval) _ h5 in
    let (status, _, h7) = call_returned (set_required payload.status m.status) _ h6 in
    let row = ok_inj h7 in
    (
      sym (ap (λ (x : Monitor). x.id) row),
      sym (ap (λ (x : Monitor). x.owner_id) row),
      sym (ap (λ (x : Monitor). x.host_id) row),
    )

pub found_monitor :
    (u k : ℕ) (m : Monitor) (xs : List Monitor)
    → get_monitor k u xs ≡ some m
    → Memᴰ m xs × (m.id ≡ k) × (m.owner_id ≡ u)
unfolding get_monitor
found_monitor u k m xs found =
    let (there, both) = find-mem (λ (x : Monitor). x.id == k && x.owner_id == u) xs {x = m} found in
    (there, ground (arith, both), ground (arith, both))

module _ {F : Type 0} where
  -- the monitors, the hosts and the items on them, and the channels
  abbrev pub Untouched : ℕ → Site F → Site F → Type 0
  Untouched o s after =
      (filterb (monitor_of o) after.monitors ≡ filterb (monitor_of o) s.monitors)
      × (filterb (host_of o) after.hosts ≡ filterb (host_of o) s.hosts)
      × (filterb (item_of o s.hosts) after.items ≡ filterb (item_of o s.hosts) s.items)
      × (after.channels ≡ s.channels)

  -- Primary keys, the hosts behind the monitors, and that the next id is new.
  pub record IsSite (s : Site F) : Type 0 where
    pub monitor_ids : Distinct (λ (m : Monitor). m.id) s.monitors
    pub host_ids : Distinct (λ (h : Host). h.id) s.hosts
    pub item_ids : Distinct (λ (i : Item). i.id) s.items
    pub backed : IsBacked s.monitors s.hosts
    pub monitor_fresh : All (λ (m : Monitor). m.id < s.next_id) s.monitors
    pub host_fresh : All (λ (h : Host). h.id < s.next_id) s.hosts
    pub item_fresh : All (λ (i : Item). i.id < s.next_id) s.items
    pub behind_fresh :
        All (λ (m : Monitor). (k : ℕ) → m.host_id ≡ some k → k < s.next_id) s.monitors

  module _ (o : ℕ) where
    -- a host that is deleted, none of whose monitors and items are the owner's
    remove_host-Untouched :
        (host_id : ℕ) (s : Site F)
        → All (λ (h : Host). (h.id == host_id) ≡ true → host_of o h ≡ false) s.hosts
        → All (λ (m : Monitor). monitor_of o m ≡ true → m.host_id ≢ some host_id) s.monitors
        → elem host_id (map (λ (h : Host). h.id) (filterb (host_of o) s.hosts)) ≡ false
        → Untouched o s (remove_host host_id s)
    unfolding remove_host remove_items remove_triggers
    remove_host-Untouched host_id s hosts monitors absent = (
      filterb-changed (monitor_of o) (λ m. record m { host_id = unset host_id m.host_id })
          s.monitors
          (All-weaken (λ (m : Monitor). monitor_of o m ≡ true → m.host_id ≢ some host_id) _
            (λ m apart. (
              refl,
              λ theirs.
                  ap (λ z. record m { host_id = z }) (unset-other host_id m.host_id (apart theirs)),
            ))
            s.monitors monitors),
      filterb-deleted (host_of o) (λ (h : Host). h.id == host_id) s.hosts hosts,
      filterb-deleted (item_of o s.hosts) (λ (i : Item). i.host_id == host_id) s.items
          (All-intro _ (λ i same. rw (==→eq i.host_id host_id same) absent) s.items),
      refl,
    )

  module _ (o u : ℕ) (apart : u ≢ o) where
    -- a user's host is deleted
    pub host_gone :
        (k : ℕ) (h : Host) (s : Site F)
        → IsBacked s.monitors s.hosts
        → Memᴰ h s.hosts
        → h.id ≡ k
        → All (λ (g : Host). (g.id == k) ≡ true → g.owner_id ≡ u) s.hosts
        → Untouched o s (remove_host k s)
    host_gone k h s backed there same owned =
        let foreign =
          All-weaken (λ (g : Host). (g.id == k) ≡ true → g.owner_id ≡ u)
            (λ g. (g.id == k) ≡ true → host_of o g ≡ false)
            (λ g own eq. ground (arith, own eq, apart)) s.hosts owned in
        let own =
          All-at (λ (g : Host). (g.id == k) ≡ true → g.owner_id ≡ u) s.hosts owned there
            (ground (arith, same)) in
        remove_host-Untouched o k s foreign
          (All-weaken
            (λ (m : Monitor).
              All (λ (g : Host). m.host_id ≡ some g.id → g.owner_id ≡ m.owner_id) s.hosts)
            (λ m. monitor_of o m ≡ true → m.host_id ≢ some k)
            (λ m behind theirs e.
              let mine =
                All-at (λ (g : Host). m.host_id ≡ some g.id → g.owner_id ≡ m.owner_id) s.hosts
                  behind there (e ∙ ap some (sym same)) in
              ground (arith, own, mine, theirs, apart))
            s.monitors backed)
          (not_theirs (λ (g : Host). g.id) (λ (g : Host). g.owner_id) k u o s.hosts apart owned)

    pub create_monitor-Untouched :
        (payload : MonitorCreate) (s : Site F) → Untouched o s (create_monitor u payload s).1
    unfolding create_monitor new_monitor
    create_monitor-Untouched payload s = (
      filterb-added (monitor_of o) s.monitors (new_monitor s.next_id payload u) (ne→== u o apart),
      refl,
      refl,
      refl,
    )

    monitors_foreign :
        (k : ℕ) (m : Monitor) (s : Site F)
        → IsSite s
        → get_monitor k u s.monitors ≡ some m
        → All (λ (x : Monitor). (x.id == k) ≡ true → monitor_of o x ≡ false) s.monitors
    unfolding get_monitor
    monitors_foreign k m s w found =
        foreign_key (λ (x : Monitor). x.id) (λ (x : Monitor). x.owner_id) k u o s.monitors {x = m}
          apart w.monitor_ids found

    store_monitor-Untouched :
        (k : ℕ) (m : Monitor) (s : Site F) (r : Result Monitor)
        → IsSite s
        → get_monitor k u s.monitors ≡ some m
        → ((new : Monitor)
            → r ≡ ok new
            → (new.id ≡ m.id) × (new.owner_id ≡ m.owner_id) × (new.host_id ≡ m.host_id))
        → Untouched o s (store_monitor r s).1
    unfolding store_monitor
    store_monitor-Untouched k m s (raised e) w found keys = (refl, refl, refl, refl)
    store_monitor-Untouched k m s (ok new) w found keys =
        let (there, mine, own) = found_monitor u k m s.monitors found in
        let (same, owner, host) = keys new refl in
        (
          filterb-replaced (λ (x : Monitor). x.id) (monitor_of o) new s.monitors
              (All-weaken (λ (x : Monitor). (x.id == k) ≡ true → monitor_of o x ≡ false) _
                (λ x foreign e. foreign (ground (arith, e, same, mine))) s.monitors
                (monitors_foreign k m s w found))
              (ground (arith, owner, own, apart)),
          refl,
          refl,
          refl,
        )

    pub update_monitor-Untouched :
        (k : ℕ) (payload : MonitorUpdate) (s : Site F)
        → IsSite s
        → Untouched o s (update_monitor u k payload s).1
    unfolding update_monitor
    update_monitor-Untouched k payload s w = elim (Option-cases (get_monitor k u s.monitors)) [
      | inl e ↦ rw (e, update_monitor) (refl, refl, refl, refl)
      | inr (m, e) ↦
          rw (e, update_monitor)
            (store_monitor-Untouched k m s (updated_monitor m payload) w e
              (λ new. updated_monitor-keys m new payload))
    ]

    remove_monitor-Untouched :
        (k : ℕ) (m : Monitor) (s : Site F)
        → IsSite s
        → get_monitor k u s.monitors ≡ some m
        → Untouched o s (remove_monitor k s)
    unfolding remove_monitor remove_triggers
    remove_monitor-Untouched k m s w found = (
      filterb-deleted (monitor_of o) (λ (x : Monitor). x.id == k) s.monitors
          (monitors_foreign k m s w found),
      refl,
      refl,
      refl,
    )

    -- the host behind a monitor of the user
    backing-Untouched :
        (b : Option ℕ) (s : Site F)
        → IsBacked s.monitors s.hosts
        → All (λ (h : Host). b ≡ some h.id → h.owner_id ≡ u) s.hosts
        → Untouched o s (delete_backing_host b s)
    unfolding delete_backing_host
    backing-Untouched none s backed own = (refl, refl, refl, refl)
    backing-Untouched (some k) s backed own =
        elim (Option-cases (find (λ (h : Host). h.id == k) s.hosts)) [
          | inl e ↦ rw (e, delete_backing_host) (refl, refl, refl, refl)
          | inr (h, e) ↦
              let (there, same) = find-mem (λ (g : Host). g.id == k) s.hosts {x = h} e in
              rw (e, delete_backing_host)
                (host_gone k h s backed there (==→eq h.id k same) (
                  All-weaken (λ (g : Host). some k ≡ some g.id → g.owner_id ≡ u)
                    (λ g. (g.id == k) ≡ true → g.owner_id ≡ u)
                    (λ g mine eq. mine (ap some (sym (==→eq g.id k eq)))) s.hosts own))
        ]

    pub delete_monitor-Untouched :
        (k : ℕ) (s : Site F) → IsSite s → Untouched o s (delete_monitor u k s).1
    unfolding delete_monitor remove_monitor remove_triggers
    delete_monitor-Untouched k s w = elim (Option-cases (get_monitor k u s.monitors)) [
      | inl e ↦ rw (e, delete_monitor) (refl, refl, refl, refl)
      | inr (m, e) ↦
          let (there, mine, own) = found_monitor u k m s.monitors e in
          let gone = remove_monitor-Untouched k m s w e in
          let behind =
            All-at
              (λ (x : Monitor).
                All (λ (h : Host). x.host_id ≡ some h.id → h.owner_id ≡ x.owner_id) s.hosts)
              s.monitors w.backed there in
          let backing =
            backing-Untouched m.host_id (remove_monitor k s)
              (All-filterb _ (λ (x : Monitor). not (x.id == k)) s.monitors w.backed)
              (All-weaken (λ (h : Host). m.host_id ≡ some h.id → h.owner_id ≡ m.owner_id)
                (λ h. m.host_id ≡ some h.id → h.owner_id ≡ u) (λ h b eq. b eq ∙ own) s.hosts
                behind) in
          rw (e, delete_monitor)
            (backing.0 ∙ gone.0, backing.1 ∙ gone.1, backing.2 ∙ gone.2, backing.3 ∙ gone.3)
    ]

    pub attach_channel-Untouched : (k c : ℕ) (s : Site F) → Untouched o s (attach_channel u k c s).1
    unfolding attach_channel
    attach_channel-Untouched k c s = elim (Option-cases (get_monitor k u s.monitors)) [
      | inl e ↦ rw (e, attach_channel) (refl, refl, refl, refl)
      | inr (m, e) ↦ elim (Option-cases (get_channel c u s.channels)) [
        | inl e' ↦ rw (e, attach_channel, e') (refl, refl, refl, refl)
        | inr (x, e') ↦ rw (e, attach_channel, e') (refl, refl, refl, refl)
      ]
    ]

    pub detach_channel-Untouched : (k c : ℕ) (s : Site F) → Untouched o s (detach_channel u k c s).1
    unfolding detach_channel
    detach_channel-Untouched k c s = elim (Option-cases (get_monitor k u s.monitors)) [
      | inl e ↦ rw (e, detach_channel) (refl, refl, refl, refl)
      | inr (m, e) ↦ elim (Option-cases (get_channel c u s.channels)) [
        | inl e' ↦ rw (e, detach_channel, e') (refl, refl, refl, refl)
        | inr (x, e') ↦ rw (e, detach_channel, e') (refl, refl, refl, refl)
      ]
    ]
