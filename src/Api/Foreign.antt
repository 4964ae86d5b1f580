-- ===== src/Api/Foreign.antt =====
-- What the requests of app/api/routes/hosts.py leave of the rows of another owner.
use ghostmon.Base.{
  ℕ, ◌≡◌, ◌≢◌, refl, sym, ap, ◌∙◌, true, false, ◌&&◌, some, arith, ◌==◌, All, All-weaken,
  Bool-cases, Option-cases, inl, inr, ne→==, Result, ok, raised, Memᴰ, find-mem, ok_inj,
  call_returned, set_required,
}
use ghostmon.Model.Host.{Host, Item}
use ghostmon.Secrets.{Fernet}
use ghostmon.Hosts.{ItemCreate, create_item}
use ghostmon.Api.{Site, remove_triggers, remove_items, get_channel}
use ghostmon.Api.Hosts.{
  get_host, get_item, HostCreate, HostUpdate, ItemUpdate, new_host, other_named, updated_host,
  other_keyed, updated_item, create_host, store_host, update_host, delete_host, add_item,
  create_host_item, store_item, update_item, delete_item, attach_host_channel, detach_host_channel,
}
use ghostmon.Api.Lists.{filterb-deleted, filterb-added, filterb-replaced, owned_key, not_theirs}
use ghostmon.Api.Untouched.{Untouched, IsSite, host_of, item_of, host_gone}

-- a host's keys, and an item's, do not change
pub updated_host-keys :
    (h new : Host) (payload : HostUpdate)
    → updated_host h payload ≡ ok new
    → (new.id ≡ h.id) × (new.owner_id ≡ h.owner_id)
unfolding updated_host
updated_host-keys h new payload e =
    let (name, _, e1) = call_returned (set_required payload.name h.name) _ e in
    let (enabled, _, e2) = call_returned (set_required payload.is_enabled h.is_enabled) _ e1 in
    let row = ok_inj e2 in
    (sym (ap (λ (x : Host). x.id) row), sym (ap (λ (x : Host). x.owner_id) row))

pub updated_item-keys :
    (f : Fernet) (n : ℕ) (i new : Item) (payload : ItemUpdate)
    → updated_item f n i payload ≡ ok new
    → (new.id ≡ i.id) × (new.host_id ≡ i.host_id)
unfolding updated_item
updated_item-keys f n i new payload e =
    let (key, _, e1) = call_returned (set_required payload.key i.key) _ e in
    let (name, _, e2) = call_returned (set_required payload.name i.name) _ e1 in
    let (kind, _, e3) = call_returned (set_required payload.value_type i.value_type) _ e2 in
    let (interval, _, e4) = call_returned (set_required payload.interval i.interval) _ e3 in
    let (source, _, e5) = call_returned (set_required payload.source i.source) _ e4 in
    let (enabled, _, e6) = call_returned (set_required payload.is_enabled i.is_enabled) _ e5 in
    let (hidden, _, e7) = call_returned (set_required payload.is_private i.is_private) _ e6 in
    let row = ok_inj e7 in
    (sym (ap (λ (x : Item). x.id) row), sym (ap (λ (x : Item). x.host_id) row))

module _ {F : Type 0} (o u : ℕ) (apart : u ≢ o) (s : Site F) (w : IsSite s) where
  hosts_owned :
      (k : ℕ) (h : Host)
      → get_host k u s.hosts ≡ some h
      → All (λ (g : Host). (g.id == k) ≡ true → g.owner_id ≡ u) s.hosts
  unfolding get_host
  hosts_owned k h found =
      owned_key (λ (g : Host). g.id) (λ (g : Host). g.owner_id) k u s.hosts {x = h} w.host_ids found

  found_host :
      (k : ℕ) (h : Host)
      → get_host k u s.hosts ≡ some h
      → Memᴰ h s.hosts × (h.id ≡ k) × (h.owner_id ≡ u)
  unfolding get_host
  found_host k h found =
      let (there, both) =
        find-mem (λ (g : Host). g.id == k && g.owner_id == u) s.hosts {x = h} found in
      (there, ground (arith, both), ground (arith, both))

  -- the items of the user's host are not the owner's
  item_foreign :
      (k : ℕ) (h : Host) (i : Item)
      → get_host k u s.hosts ≡ some h
      → i.host_id ≡ k
      → item_of o s.hosts i ≡ false
  item_foreign k h i found on = rw on (
      not_theirs (λ (g : Host). g.id) (λ (g : Host). g.owner_id) k u o s.hosts apart
        (hosts_owned k h found))

  pub create_host-Untouched : (payload : HostCreate) → Untouched o s (create_host u payload s).1
  unfolding create_host new_host
  create_host-Untouched payload =
      elim (Bool-cases (other_named (new_host s.next_id payload u) s.hosts)) [
        | inl e ↦ rw (e, create_host) (refl, refl, refl, refl)
        | inr e ↦
            rw (e, create_host)
              (
                refl,
                filterb-added (host_of o) s.hosts (new_host s.next_id payload u) (ne→== u o apart),
                refl,
                refl,
              )
      ]

  store_host-Untouched :
      (k : ℕ) (h : Host) (r : Result Host)
      → get_host k u s.hosts ≡ some h
      → ((new : Host) → r ≡ ok new → (new.id ≡ h.id) × (new.owner_id ≡ h.owner_id))
      → Untouched o s (store_host r s).1
  unfolding store_host
  store_host-Untouched k h (raised e) found keys = (refl, refl, refl, refl)
  store_host-Untouched k h (ok new) found keys =
      let (there, mine, own) = found_host k h found in
      let (same, owner) = keys new refl in
      elim (Bool-cases (other_named new s.hosts)) [
        | inl e ↦ rw (e, store_host) (refl, refl, refl, refl)
        | inr e ↦
            rw (e, store_host)
              (
                refl,
                filterb-replaced (λ (x : Host). x.id) (host_of o) new s.hosts
                    (All-weaken (λ (x : Host). (x.id == k) ≡ true → x.owner_id ≡ u) _
                      (λ x mine' eq. ground (arith, eq, same, mine, mine', apart)) s.hosts
                      (hosts_owned k h found))
                    (ground (arith, owner, own, apart)),
                refl,
                refl,
              )
      ]

  pub update_host-Untouched :
      (k : ℕ) (payload : HostUpdate) → Untouched o s (update_host u k payload s).1
  unfolding update_host
  update_host-Untouched k payload = elim (Option-cases (get_host k u s.hosts)) [
    | inl e ↦ rw (e, update_host) (refl, refl, refl, refl)
    | inr (h, e) ↦
        rw (e, update_host)
          (store_host-Untouched k h (updated_host h payload) e
            (λ new. updated_host-keys h new payload))
  ]

  pub delete_host-Untouched : (k : ℕ) → Untouched o s (delete_host u k s).1
  unfolding delete_host
  delete_host-Untouched k = elim (Option-cases (get_host k u s.hosts)) [
    | inl e ↦ rw (e, delete_host) (refl, refl, refl, refl)
    | inr (h, e) ↦
        let (there, mine, own) = found_host k h e in
        rw (e, delete_host) (host_gone o u apart k h s w.backed there mine (hosts_owned k h e))
  ]

  pub create_item-Untouched :
      (f : Fernet) (k : ℕ) (payload : ItemCreate)
      → Untouched o s (create_host_item f u k payload s).1
  unfolding create_host_item create_item add_item
  create_item-Untouched f k payload = elim (Option-cases (get_host k u s.hosts)) [
    | inl e ↦ rw (e, create_host_item) (refl, refl, refl, refl)
    | inr (h, e) ↦
        let item = create_item f s.next_id k payload in
        elim (Bool-cases (other_keyed item s.items)) [
          | inl e' ↦ rw (e, create_host_item, add_item, e') (refl, refl, refl, refl)
          | inr e' ↦
              rw (e, create_host_item, add_item, e')
                (
                  refl,
                  refl,
                  filterb-added (item_of o s.hosts) s.items item (item_foreign k h item e refl),
                  refl,
                )
        ]
  ]

  found_item :
      (k j : ℕ) (i : Item)
      → get_item j k s.items ≡ some i
      → All (λ (x : Item). (x.id == j) ≡ true → x.host_id ≡ k) s.items
        × (i.id ≡ j)
        × (i.host_id ≡ k)
  unfolding get_item
  found_item k j i found =
      let (there, both) =
        find-mem (λ (x : Item). x.id == j && x.host_id == k) s.items {x = i} found in
      (
        owned_key (λ (x : Item). x.id) (λ (x : Item). x.host_id) j k s.items {x = i} w.item_ids
            found,
        ground (arith, both),
        ground (arith, both),
      )

  items_foreign :
      (k j : ℕ) (h : Host) (i : Item)
      → get_host k u s.hosts ≡ some h
      → get_item j k s.items ≡ some i
      → All (λ (x : Item). (x.id == j) ≡ true → item_of o s.hosts x ≡ false) s.items
  items_foreign k j h i found there =
      All-weaken (λ (x : Item). (x.id == j) ≡ true → x.host_id ≡ k) _
        (λ x on eq. item_foreign k h x found (on eq)) s.items (found_item k j i there).0

  store_item-Untouched :
      (k j : ℕ) (h : Host) (i : Item) (r : Result Item)
      → get_host k u s.hosts ≡ some h
      → get_item j k s.items ≡ some i
      → ((new : Item) → r ≡ ok new → (new.id ≡ i.id) × (new.host_id ≡ i.host_id))
      → Untouched o s (store_item r s).1
  unfolding store_item
  store_item-Untouched k j h i (raised e) found there keys = (refl, refl, refl, refl)
  store_item-Untouched k j h i (ok new) found there keys =
      let (all, mine, on) = found_item k j i there in
      let (same, host) = keys new refl in
      elim (Bool-cases (other_keyed new s.items)) [
        | inl e ↦ rw (e, store_item) (refl, refl, refl, refl)
        | inr e ↦
            rw (e, store_item)
              (
                refl,
                refl,
                filterb-replaced (λ (x : Item). x.id) (item_of o s.hosts) new s.items
                    (All-weaken (λ (x : Item). (x.id == j) ≡ true → item_of o s.hosts x ≡ false) _
                      (λ x foreign eq. foreign (ground (arith, eq, same, mine))) s.items
                      (items_foreign k j h i found there))
                    (item_foreign k h new found (host ∙ on)),
                refl,
              )
      ]

  pub update_item-Untouched :
      (f : Fernet) (k j : ℕ) (payload : ItemUpdate)
      → Untouched o s (update_item f u k j payload s).1
  unfolding update_item
  update_item-Untouched f k j payload = elim (Option-cases (get_host k u s.hosts)) [
    | inl e ↦ rw (e, update_item) (refl, refl, refl, refl)
    | inr (h, e) ↦ elim (Option-cases (get_item j k s.items)) [
      | inl e' ↦ rw (e, update_item, e') (refl, refl, refl, refl)
      | inr (i, e') ↦
          rw (e, update_item, e')
            (store_item-Untouched k j h i (updated_item f s.next_id i payload) e e'
              (λ new. updated_item-keys f s.next_id i new payload))
    ]
  ]

  pub delete_item-Untouched : (k j : ℕ) → Untouched o s (delete_item u k j s).1
  unfolding delete_item remove_items remove_triggers
  delete_item-Untouched k j = elim (Option-cases (get_host k u s.hosts)) [
    | inl e ↦ rw (e, delete_item) (refl, refl, refl, refl)
    | inr (h, e) ↦ elim (Option-cases (get_item j k s.items)) [
      | inl e' ↦ rw (e, delete_item, e') (refl, refl, refl, refl)
      | inr (i, e') ↦
          rw (e, delete_item, e')
            (
              refl,
              refl,
              filterb-deleted (item_of o s.hosts) (λ (x : Item). x.id == j) s.items
                  (items_foreign k j h i e e'),
              refl,
            )
    ]
  ]

  pub attach_host_channel-Untouched : (k c : ℕ) → Untouched o s (attach_host_channel u k c s).1
  unfolding attach_host_channel
  attach_host_channel-Untouched k c = elim (Option-cases (get_host k u s.hosts)) [
    | inl e ↦ rw (e, attach_host_channel) (refl, refl, refl, refl)
    | inr (h, e) ↦ elim (Option-cases (get_channel c u s.channels)) [
      | inl e' ↦ rw (e, attach_host_channel, e') (refl, refl, refl, refl)
      | inr (x, e') ↦ rw (e, attach_host_channel, e') (refl, refl, refl, refl)
    ]
  ]

  pub detach_host_channel-Untouched : (k c : ℕ) → Untouched o s (detach_host_channel u k c s).1
  unfolding detach_host_channel
  detach_host_channel-Untouched k c = elim (Option-cases (get_host k u s.hosts)) [
    | inl e ↦ rw (e, detach_host_channel) (refl, refl, refl, refl)
    | inr (h, e) ↦ elim (Option-cases (get_channel c u s.channels)) [
      | inl e' ↦ rw (e, detach_host_channel, e') (refl, refl, refl, refl)
      | inr (x, e') ↦ rw (e, detach_host_channel, e') (refl, refl, refl, refl)
    ]
  ]
