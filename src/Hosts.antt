-- ===== src/Hosts.antt =====
-- app/core/services/host_service.py: the items of hosts and their samples.
use ghostmon.Base.{
  ℕ, Bool, ◌&&◌, String, Option, none, some, List, find, ◌==◌, str_eq, if◌then◌else◌,
}
use ghostmon.Model.Host.{Host, Item, ItemConfig, ItemValueType, ItemSource, MetricValue, is_numeric}
use ghostmon.Secrets.{Fernet, seal_secret}

-- What is pushed: a number or a text.
pub data Value (F : Type 0) : Type 0 where
  number : F → Value F
  text : String → Value F

unfoldable pub get_by_name : ℕ → String → List Host → Option Host
get_by_name owner_id name hosts =
    find (λ (h : Host). h.owner_id == owner_id && str_eq h.name name) hosts

unfoldable pub get_by_key : ℕ → String → List Item → Option Item
get_by_key host_id key items = find (λ (i : Item). i.host_id == host_id && str_eq i.key key) items

-- the columns of a payload; `config` is what the client sent
pub record ItemCreate : Type 0 where
  pub key : String
  pub name : String
  pub value_type : ItemValueType
  pub units : Option String
  pub interval : ℕ
  pub source : ItemSource
  pub config : ItemConfig
  pub is_enabled : Bool
  pub is_private : Bool

-- `_seal_item_config`
unfoldable pub seal_item_config : Fernet → ℕ → ItemConfig → ItemConfig
seal_item_config f n config = record config { community = seal_secret f n config.community }

-- the row that `create` adds under the id `i`
unfoldable pub create_item : Fernet → ℕ → ℕ → ItemCreate → Item
unfolding seal_item_config
create_item f i host_id payload = record {
  id = i;
  host_id = host_id;
  key = payload.key;
  name = payload.name;
  value_type = payload.value_type;
  units = payload.units;
  interval = payload.interval;
  is_enabled = payload.is_enabled;
  is_private = payload.is_private;
  source = payload.source;
  config = seal_item_config f i payload.config;
}

-- Python's `str` of a float is a parameter
module _ {F : Type 0} (show_float : F → String) where
  abbrev pub show_value : Value F → String
  show_value (number x) = show_float x
  show_value (text s) = s

  -- `_split_value`: the two columns, or `none` for ValueError
  unfoldable pub split_value : ItemValueType → Value F → Option (Option F × Option String)
  split_value kind (number x) =
      if is_numeric kind then some (some x, none) else some (none, some (show_float x))
  split_value kind (text s) = if is_numeric kind then none else some (none, some s)

  -- `record_value`: the sample that is added, or `none` for ValueError
  unfoldable pub record_value : Item → Value F → ℕ → Option (MetricValue F)
  unfolding split_value
  record_value item value collected_at =
      let columns : Option (Option F × Option String) =
        if item.is_private
        then some (none, some (show_value value))
        else split_value item.value_type value in
      elim columns [
        | none ↦ none
        | some (value_num, value_text) ↦ some (record {
          item_id = item.id;
          value_num = value_num;
          value_text = value_text;
          collected_at = collected_at;
        })
      ]
