-- ===== src/Api/Hosts.antt =====
-- app/core/services/host_service.py and app/api/routes/hosts.py: hosts, items and their channels.
use ghostmon.Base.{
  ℕ, suc, Bool, ◌&&◌, ◌||◌, not, String, Option, none, some, List, [], ◌∷◌, ◌++◌, map, ◌==◌, str_eq,
  if◌then◌else◌, find, is_some, is_set, Result, ok, raised, set_required, set_or, ◌>>=◌,
}
use ghostmon.Model.Host.{Host, Item, ItemConfig, ItemValueType, ItemSource}
use ghostmon.Secrets.{Fernet, is_redacted}
use ghostmon.Hosts.{ItemCreate, create_item, seal_item_config}
use ghostmon.Api.{
  Site, Reply, done, not_found, failed, remove_host, remove_items, link_channel, unlink_channel,
  get_channel,
}

unfoldable pub get_host : ℕ → ℕ → List Host → Option Host
get_host host_id owner_id = find (λ (h : Host). h.id == host_id && h.owner_id == owner_id)

unfoldable pub get_item : ℕ → ℕ → List Item → Option Item
get_item item_id host_id = find (λ (i : Item). i.id == item_id && i.host_id == host_id)

pub record HostCreate : Type 0 where
  pub name : String
  pub description : Option String
  pub address : Option String
  pub is_enabled : Bool

-- a PATCH: `none` is a field that is not set, and `some none` a null
pub record HostUpdate : Type 0 where
  pub name : Option (Option String)
  pub description : Option (Option String)
  pub address : Option (Option String)
  pub is_enabled : Option (Option Bool)

unfoldable pub new_host : ℕ → HostCreate → ℕ → Host
new_host id payload owner_id = record {
  id = id;
  name = payload.name;
  description = payload.description;
  address = payload.address;
  is_enabled = payload.is_enabled;
  owner_id = owner_id;
}

-- another host of the owner has the name
unfoldable pub other_named : Host → List Host → Bool
other_named new hosts = is_some (
    find
      (λ (h : Host). not (h.id == new.id) && h.owner_id == new.owner_id && str_eq h.name new.name)
      hosts)

unfoldable pub updated_host : Host → HostUpdate → Result Host
updated_host h payload = do
  name ← set_required payload.name h.name
  is_enabled ← set_required payload.is_enabled h.is_enabled
  ok (record h {
    name = name;
    description = set_or payload.description h.description;
    address = set_or payload.address h.address;
    is_enabled = is_enabled;
  })

pub record ItemUpdate : Type 0 where
  pub key : Option (Option String)
  pub name : Option (Option String)
  pub value_type : Option (Option ItemValueType)
  pub units : Option (Option String)
  pub interval : Option (Option ℕ)
  pub source : Option (Option ItemSource)
  pub config : Option ItemConfig  -- a null, which is stored as JSON's, is left out
  pub is_enabled : Option (Option Bool)
  pub is_private : Option (Option Bool)

-- another item of the host has the key
unfoldable pub other_keyed : Item → List Item → Bool
other_keyed new items = is_some (
    find (λ (i : Item). not (i.id == new.id) && i.host_id == new.host_id && str_eq i.key new.key)
      items)

-- a blank or redacted community keeps the stored one; `n` numbers the token that is made
unfoldable pub merged_config : Fernet → ℕ → ItemConfig → ItemConfig → ItemConfig
unfolding seal_item_config
merged_config f n old new = seal_item_config f n (
    if (not (is_set new.community) || is_redacted new.community) && is_set old.community
    then record new { community = old.community }
    else new)

unfoldable pub config_of : Fernet → ℕ → ItemConfig → Option ItemConfig → ItemConfig
unfolding merged_config
config_of f n old none = old
config_of f n old (some new) = merged_config f n old new

unfoldable pub updated_item : Fernet → ℕ → Item → ItemUpdate → Result Item
unfolding config_of
updated_item f n i payload = do
  key ← set_required payload.key i.key
  name ← set_required payload.name i.name
  value_type ← set_required payload.value_type i.value_type
  interval ← set_required payload.interval i.interval
  source ← set_required payload.source i.source
  is_enabled ← set_required payload.is_enabled i.is_enabled
  is_private ← set_required payload.is_private i.is_private
  ok (record i {
    key = key;
    name = name;
    value_type = value_type;
    units = set_or payload.units i.units;
    interval = interval;
    source = source;
    config = config_of f n i.config payload.config;
    is_enabled = is_enabled;
    is_private = is_private;
  })

module _ {F : Type 0} where
  -- a second host of the name is an IntegrityError, which the route does not catch
  unfoldable pub create_host : ℕ → HostCreate → Site F → Reply × Site F
  unfolding new_host other_named
  create_host user payload s =
      let host = new_host s.next_id payload user in
      if other_named host s.hosts
      then (failed, s)
      else (done, record s { hosts = s.hosts ++ host ∷ []; next_id = suc s.next_id })

  unfoldable pub store_host : Result Host → Site F → Reply × Site F
  unfolding other_named
  store_host (raised e) s = (failed, s)
  store_host (ok new) s = if other_named new s.hosts then (failed, s) else (
    done,
    record s { hosts = map (λ (h : Host). if h.id == new.id then new else h) s.hosts },
  )

  unfoldable pub update_host : ℕ → ℕ → HostUpdate → Site F → Reply × Site F
  unfolding get_host updated_host store_host
  update_host user host_id payload s = elim (get_host host_id user s.hosts) [
    | none ↦ (not_found, s)
    | some h ↦ store_host (updated_host h payload) s
  ]

  unfoldable pub delete_host : ℕ → ℕ → Site F → Reply × Site F
  unfolding get_host remove_host
  delete_host user host_id s = elim (get_host host_id user s.hosts) [
    | none ↦ (not_found, s)
    | some h ↦ (done, remove_host host_id s)
  ]

  unfoldable pub add_item : Item → Site F → Reply × Site F
  unfolding other_keyed
  add_item item s =
      if other_keyed item s.items
      then (failed, s)
      else (done, record s { items = s.items ++ item ∷ []; next_id = suc s.next_id })

  unfoldable pub create_host_item : Fernet → ℕ → ℕ → ItemCreate → Site F → Reply × Site F
  unfolding get_host create_item add_item
  create_host_item f user host_id payload s = elim (get_host host_id user s.hosts) [
    | none ↦ (not_found, s)
    | some h ↦ add_item (create_item f s.next_id host_id payload) s
  ]

  unfoldable pub store_item : Result Item → Site F → Reply × Site F
  unfolding other_keyed
  store_item (raised e) s = (failed, s)
  store_item (ok new) s = if other_keyed new s.items then (failed, s) else (
    done,
    record s { items = map (λ (i : Item). if i.id == new.id then new else i) s.items },
  )

  unfoldable pub update_item : Fernet → ℕ → ℕ → ℕ → ItemUpdate → Site F → Reply × Site F
  unfolding get_host get_item updated_item store_item
  update_item f user host_id item_id payload s = elim (get_host host_id user s.hosts) [
    | none ↦ (not_found, s)
    | some h ↦ elim (get_item item_id host_id s.items) [
      | none ↦ (not_found, s)
      | some i ↦ store_item (updated_item f s.next_id i payload) s
    ]
  ]

  unfoldable pub delete_item : ℕ → ℕ → ℕ → Site F → Reply × Site F
  unfolding get_host get_item remove_items
  delete_item user host_id item_id s = elim (get_host host_id user s.hosts) [
    | none ↦ (not_found, s)
    | some h ↦ elim (get_item item_id host_id s.items) [
      | none ↦ (not_found, s)
      | some i ↦ (done, remove_items (λ (j : Item). j.id == item_id) s)
    ]
  ]

  unfoldable pub attach_host_channel : ℕ → ℕ → ℕ → Site F → Reply × Site F
  unfolding get_host get_channel link_channel
  attach_host_channel user host_id channel_id s = elim (get_host host_id user s.hosts) [
    | none ↦ (not_found, s)
    | some h ↦ elim (get_channel channel_id user s.channels) [
      | none ↦ (not_found, s)
      | some c ↦
          (done, record s { host_channels = link_channel host_id channel_id s.host_channels })
    ]
  ]

  unfoldable pub detach_host_channel : ℕ → ℕ → ℕ → Site F → Reply × Site F
  unfolding get_host get_channel unlink_channel
  detach_host_channel user host_id channel_id s = elim (get_host host_id user s.hosts) [
    | none ↦ (not_found, s)
    | some h ↦ elim (get_channel channel_id user s.channels) [
      | none ↦ (not_found, s)
      | some c ↦
          (done, record s { host_channels = unlink_channel host_id channel_id s.host_channels })
    ]
  ]
