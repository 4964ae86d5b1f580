-- ===== src/Poller.antt =====
-- app/tasks/item_poller.py: reading the SNMP items that are due.
pub mod Polled
mod Tests
use ghostmon.Base.{
  ℕ, ◌+◌, Bool, true, false, ◌&&◌, not, String, Option, none, some, List, [], ◌∷◌, ◌++◌, leb, ◌==◌,
  str_eq, if◌then◌else◌, find, get_or, seconds, ◌||◌,
}
use ghostmon.Model.Floats.{Floats, Aggregates}
use ghostmon.Model.Host.{Host, Item, ItemConfig, ItemValueType, ItemSource, MetricValue, is_numeric}
use ghostmon.Triggers.{evaluate_item}
use ghostmon.Notifications.Events.{RoutedAlert}
use ghostmon.Notifications.Dispatch.{item_trigger_alerts}
use ghostmon.Secrets.{Fernet, decrypt_secret}
use ghostmon.Ingest.{Tables}

-- `_PollTarget`
pub record PollTarget : Type 0 where
  pub item_id : ℕ
  pub item_key : String
  pub item_name : String
  pub host_id : ℕ
  pub host_name : String
  pub owner_id : ℕ
  pub value_type : ItemValueType
  pub address : String
  pub config : ItemConfig

-- What is read of the network and of Python: the egress policy, the answer to an SNMP request (none: an
-- error) and `float` of a text (none: ValueError).
pub record Network (F : Type 0) : Type 0 where
  pub is_allowed : String → Bool
  pub snmp_get : String → ℕ → String → String → Option String
  pub parse_float : String → Option F

abbrev pub is_snmp : ItemSource → Bool
is_snmp ItemSource.snmp = true
is_snmp ItemSource.trapper = false

abbrev pub latest : ℕ → Option ℕ → ℕ
latest t none = t
latest t (some s) = if leb t s then s else t

-- the WHERE clause, but for the address of the host
abbrev pub is_polled : Item → Bool
is_polled item = item.is_enabled && not item.is_private && is_snmp item.source

unfoldable pub is_due : Item → ℕ → Option ℕ → Bool
is_due item now none = true
is_due item now (some last_at) = leb (last_at + seconds item.interval) now

unfoldable pub target_of : Item → Host → String → PollTarget
target_of item host address = record {
  item_id = item.id;
  item_key = item.key;
  item_name = item.name;
  host_id = host.id;
  host_name = host.name;
  owner_id = host.owner_id;
  value_type = item.value_type;
  address = address;
  config = item.config;
}

-- the host of an item and its address, if both are there
unfoldable pub host_address : List Host → Item → Option (Host × String)
host_address hosts item = elim (find (λ (h : Host). h.id == item.host_id) hosts) [
  | none ↦ none
  | some host ↦ elim host.address [ none ↦ none | some address ↦ some (host, address) ]
]

-- what a poll leaves
pub record PollResult (F : Type 0) : Type 0 where
  pub tables : Tables F
  pub alerts : List (RoutedAlert F)

module _ {F : Type 0} where
  -- `max(collected_at)` of the samples of an item
  unfoldable pub last_at : ℕ → List (MetricValue F) → Option ℕ
  last_at i [] = none
  last_at i (v ∷ vs) =
      let rest = last_at i vs in if v.item_id == i then some (latest v.collected_at rest) else rest

  unfoldable pub due_targets : ℕ → List Host → List (MetricValue F) → List Item → List PollTarget
  unfolding is_due target_of host_address last_at
  due_targets now hosts values [] = []
  due_targets now hosts values (item ∷ items) =
      let rest = due_targets now hosts values items in
      elim (host_address hosts item) [
        | none ↦ rest
        | some (host, address) ↦
            if is_polled item && is_due item now (last_at item.id values)
            then target_of item host address ∷ rest
            else rest
      ]

module _ {F : Type 0} (net : Network F) (f : Fernet) where
  -- `_coerce`; `none` is the pair of two None
  unfoldable pub coerce : ItemValueType → String → Option (Option F × Option String)
  coerce value_type raw =
      if is_numeric value_type
      then (elim (net.parse_float raw) [ none ↦ none | some x ↦ some (some x, none) ])
      else some (none, some raw)

  -- the community and the port of a target
  abbrev pub community_of : ItemConfig → String
  community_of config = decrypt_secret f (get_or config.community "public")

  abbrev pub port_of : ItemConfig → ℕ
  port_of config = get_or config.port 161

  -- `_poll_one` up to the value: `none` on each early return
  unfoldable pub poll_value : PollTarget → Option (Option F × Option String)
  unfolding coerce
  poll_value target = elim target.config.oid [
    | none ↦ none
    | some oid ↦
        if str_eq oid "" || not (net.is_allowed target.address)
        then none
        else elim (net.snmp_get target.address (port_of target.config) (community_of target.config)
            oid) [ none ↦ none | some raw ↦ coerce target.value_type raw ]
  ]

module _ {F : Type 0} ⦃fl : Floats F⦄ ⦃agg : Aggregates F⦄ where
  -- `_poll_one` from the value on
  unfoldable pub store_value : PollTarget → Option F × Option String → ℕ → Tables F → PollResult F
  store_value target (value_num, value_text) now db =
      let sample : MetricValue F = record {
        item_id = target.item_id;
        value_num = value_num;
        value_text = value_text;
        collected_at = now;
      } in
      let values = db.values ++ sample ∷ [] in
      let evaluated =
        evaluate_item (record { monitors = db.monitors; items = db.items; values = values })
          target.item_id target.item_key target.item_name target.host_id target.host_name value_num
          now (some target.owner_id) db.triggers db.timeline in
      record {
        tables = record db {
          values = values;
          triggers = evaluated.triggers;
          timeline = evaluated.timeline;
        };
        alerts = item_trigger_alerts evaluated.fired now;
      }

  unfoldable pub poll_one : Network F → Fernet → PollTarget → ℕ → Tables F → PollResult F
  unfolding store_value
  poll_one net f target now db = elim (poll_value net f target) [
    | none ↦ record { tables = db; alerts = [] }
    | some columns ↦ store_value target columns now db
  ]

  -- the targets are polled at once; this is one of the orders in which their answers come
  unfoldable pub poll_targets : Network F → Fernet → List PollTarget → ℕ → Tables F → PollResult F
  unfolding poll_one
  poll_targets net f [] now db = record { tables = db; alerts = [] }
  poll_targets net f (t ∷ ts) now db =
      let first = poll_one net f t now db in
      let rest = poll_targets net f ts now first.tables in
      record { tables = rest.tables; alerts = first.alerts ++ rest.alerts }

  unfoldable pub poll_due_items : Network F → Fernet → ℕ → Tables F → PollResult F
  unfolding due_targets poll_targets
  poll_due_items net f now db =
      poll_targets net f (due_targets now db.hosts db.values db.items) now db
