-- ===== src/Bridge.antt =====
-- app/core/services/monitor_host_bridge.py: the host and the items that back a monitor.
pub mod Again
mod Tests
use Prim.Native.String.{◌++◌ as str_append}
use ghostmon.Base.{
  ℕ, suc, true, false, ◌&&◌, String, Option, none, some, List, [], ◌∷◌, ◌++◌, ◌==◌, str_eq, find,
}
use ghostmon.Model.Monitor.{Monitor}
use ghostmon.Model.Host.{Host, Item, ItemConfig, ItemValueType, float, unsigned, text, trapper}

-- the tables of hosts and items, and the next UUID
pub record Inventory : Type 0 where
  pub hosts : List Host
  pub items : List Item
  pub next_id : ℕ

abbrev pub latency_item_key : String
latency_item_key = "latency_ms"

abbrev pub status_item_key : String
status_item_key = "status"

abbrev pub error_item_key : String
error_item_key = "error"

pub record BackingItems : Type 0 where
  pub latency : Item
  pub status : Item
  pub error : Item

-- the columns that a new row of `items` gets by default
abbrev pub no_config : ItemConfig
no_config = record { oid = none; community = none; port = none }

-- the entry of `existing`: the item of the host with the key
unfoldable pub item_by_key : ℕ → String → List Item → Option Item
item_by_key host_id key items = find (λ (i : Item). i.host_id == host_id && str_eq i.key key) items

-- what one `_ensure` returns, and the tables
pub record Ensured : Type 0 where
  pub item : Item
  pub inventory : Inventory

-- `_ensure`, of a monitor that has a host: `existing` are the rows before any was added
unfoldable pub ensure :
    List Item → ℕ → ℕ → String → String → ItemValueType → Option String → Inventory → Ensured
unfolding item_by_key
ensure existing host_id interval key name value_type units inv =
    elim (item_by_key host_id key existing) [
      | some found ↦ record { item = found; inventory = inv }
      | none ↦
          let item : Item = record {
            id = inv.next_id;
            host_id = host_id;
            key = key;
            name = name;
            value_type = value_type;
            units = units;
            interval = interval;
            is_enabled = true;
            is_private = false;
            source = trapper;
            config = no_config;
          } in
          record {
            item = item;
            inventory = record inv { items = inv.items ++ item ∷ []; next_id = suc inv.next_id };
          }
    ]

-- the three items of a host
pub record Backed : Type 0 where
  pub items : BackingItems
  pub host_id : ℕ
  pub inventory : Inventory

unfoldable pub ensure_items : ℕ → ℕ → Inventory → Backed
unfolding ensure
ensure_items host_id interval inv =
    let existing = inv.items in
    let latency =
      ensure existing host_id interval latency_item_key "Latency" float (some "ms") inv in
    let status =
      ensure existing host_id interval status_item_key "Status" unsigned none latency.inventory in
    let error =
      ensure existing host_id interval error_item_key "Error" text none status.inventory in
    record {
      items = record { latency = latency.item; status = status.item; error = error.item };
      host_id = host_id;
      inventory = error.inventory;
    }

-- `short_hex` is the first eight hexadecimal digits of a UUID
module _ (short_hex : ℕ → String) where
  unfoldable pub backing_host_name : Monitor → String
  backing_host_name m = str_append m.name (str_append " [" (str_append (short_hex m.id) "]"))

  unfoldable pub backing_host : Monitor → Inventory → Host
  unfolding backing_host_name
  backing_host m inv = record {
    id = inv.next_id;
    name = backing_host_name m;
    description = some (str_append "Backing host for monitor “" (str_append m.name "”."));
    address = none;
    is_enabled = true;
    owner_id = m.owner_id;
  }

  unfoldable pub ensure_host : Option ℕ → Monitor → Inventory → ℕ × Inventory
  unfolding backing_host
  ensure_host (some host_id) m inv = (host_id, inv)
  ensure_host none m inv = (
    inv.next_id,
    record inv { hosts = inv.hosts ++ backing_host m inv ∷ []; next_id = suc inv.next_id },
  )

  -- the items, the monitor's host and the tables
  unfoldable pub ensure_backing_items : Monitor → Inventory → Backed
  unfolding ensure_host ensure_items
  ensure_backing_items m inv =
      let (host_id, inv') = ensure_host m.host_id m inv in ensure_items host_id m.interval inv'
