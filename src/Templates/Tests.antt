-- ===== src/Templates/Tests.antt =====
-- A template of two items on a host that has one of them.
use ghostmon.Base.{ℕ, ◌≡◌, refl, Bool, true, ◌||◌, String, none, List, [], ◌∷◌, has_text}
use ghostmon.Model.Host.{Item, ItemValueType, trapper}
use ghostmon.Model.Template.{TemplateItem}
use ghostmon.Bridge.{Inventory, no_config}
use ghostmon.Templates.{apply_to_host, keys_of_host}
use ghostmon.Templates.Applied.{apply_to_host-union, template_keys, items_of}

abbrev unordered : String → String → Bool
unordered a b = true

abbrev template_item : ℕ → ℕ → String → TemplateItem
template_item id template_id key = record {
  id = id;
  template_id = template_id;
  key = key;
  name = key;
  value_type = ItemValueType.float;
  units = none;
  interval = 60;
}

abbrev template_items : List TemplateItem
template_items =
    template_item 1 9 "cpu" ∷ template_item 2 8 "disk" ∷ template_item 3 9 "memory" ∷ []

abbrev cpu : Item
cpu = record {
  id = 20;
  host_id = 4;
  key = "cpu";
  name = "Processor";
  value_type = ItemValueType.float;
  units = none;
  interval = 30;
  is_enabled = true;
  is_private = Bool.false;
  source = trapper;
  config = no_config;
}

abbrev one_item : Inventory
one_item = record { hosts = []; items = cpu ∷ []; next_id = 30 }

-- only the missing item of the template is created
applied_run : (apply_to_host unordered 9 4 template_items one_item).created ≡ 1
unfolding apply_to_host
applied_run = refl

apply_to_host-union_example :
    has_text "memory"
      (keys_of_host 4 (apply_to_host unordered 9 4 template_items one_item).inventory.items)
    ≡ (has_text "memory" (keys_of_host 4 one_item.items)
        || has_text "memory" (template_keys (items_of 9 template_items)))
apply_to_host-union_example = apply_to_host-union unordered 9 4 template_items one_item "memory"
