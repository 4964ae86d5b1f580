-- ===== src/Templates.antt =====
-- app/core/services/template_service.py: sets of items that are applied to hosts.
pub mod Applied
mod Tests
use ghostmon.Base.{
  ℕ, suc, ◌-◌, Bool, true, false, ◌&&◌, ◌||◌, not, String, Option, none, some, List, [], ◌∷◌, ◌++◌,
  map, ◌==◌, str_eq, if◌then◌else◌, filterb, find, length, has_text, set_or, set_required, Result,
  ok, ◌>>=◌,
}
use ghostmon.Model.Host.{Item, ItemValueType, trapper}
use ghostmon.Model.Template.{Template, TemplateItem}
use ghostmon.Bridge.{Inventory, no_config}

-- The two tables of templates, and the next UUID.
pub record Catalog : Type 0 where
  pub templates : List Template
  pub template_items : List TemplateItem
  pub next_id : ℕ

unfoldable pub get_template : ℕ → ℕ → Catalog → Option Template
get_template template_id owner_id db =
    find (λ (t : Template). t.id == template_id && t.owner_id == owner_id) db.templates

unfoldable pub create_template : String → Option String → ℕ → Catalog → Template × Catalog
create_template name description owner_id db =
    let template : Template = record {
      id = db.next_id;
      name = name;
      description = description;
      owner_id = owner_id;
    } in
    (template, record db { templates = db.templates ++ template ∷ []; next_id = suc db.next_id })

-- a PATCH: `none` is a field that is not set, and `some none` a null
pub record TemplateUpdate : Type 0 where
  pub name : Option (Option String)
  pub description : Option (Option String)

unfoldable pub update_template : Template → TemplateUpdate → Result Template
update_template t payload = do
  name ← set_required payload.name t.name
  ok (record t { name = name; description = set_or payload.description t.description })

-- `delete`, with the items, which the database deletes with it
unfoldable pub delete_template : Template → Catalog → Catalog
delete_template template db = record db {
  templates = filterb (λ (t : Template). not (t.id == template.id)) db.templates;
  template_items =
      filterb (λ (i : TemplateItem). not (i.template_id == template.id)) db.template_items;
}

unfoldable pub get_template_item : ℕ → ℕ → Catalog → Option TemplateItem
get_template_item item_id template_id db =
    find (λ (i : TemplateItem). i.id == item_id && i.template_id == template_id) db.template_items

-- the columns of a new item of a template
pub record TemplateItemCreate : Type 0 where
  pub key : String
  pub name : String
  pub value_type : ItemValueType
  pub units : Option String
  pub interval : ℕ

unfoldable pub add_item : ℕ → TemplateItemCreate → Catalog → TemplateItem × Catalog
add_item template_id payload db =
    let item : TemplateItem = record {
      id = db.next_id;
      template_id = template_id;
      key = payload.key;
      name = payload.name;
      value_type = payload.value_type;
      units = payload.units;
      interval = payload.interval;
    } in
    (item, record db { template_items = db.template_items ++ item ∷ []; next_id = suc db.next_id })

unfoldable pub delete_item : TemplateItem → Catalog → Catalog
delete_item item db = record db {
  template_items = filterb (λ (i : TemplateItem). not (i.id == item.id)) db.template_items;
}

-- `order_by(TemplateItem.key)`, where `before` is the order of the database's collation
module _ (before : String → String → Bool) where
  unfoldable pub insert_by_key : TemplateItem → List TemplateItem → List TemplateItem
  insert_by_key i [] = i ∷ []
  insert_by_key i (j ∷ js) =
      let later = insert_by_key i js in if before i.key j.key then i ∷ j ∷ js else j ∷ later

  unfoldable pub sort_by_key : List TemplateItem → List TemplateItem
  unfolding insert_by_key
  sort_by_key [] = []
  sort_by_key (i ∷ is) = insert_by_key i (sort_by_key is)

  unfoldable pub list_items : ℕ → List TemplateItem → List TemplateItem
  unfolding sort_by_key
  list_items template_id items =
      sort_by_key (filterb (λ (i : TemplateItem). i.template_id == template_id) items)

-- `existing_keys`
unfoldable pub keys_of_host : ℕ → List Item → List String
keys_of_host host_id [] = []
keys_of_host host_id (i ∷ is) =
    let rest = keys_of_host host_id is in if i.host_id == host_id then i.key ∷ rest else rest

unfoldable pub item_of_template : ℕ → ℕ → TemplateItem → Item
item_of_template id host_id t = record {
  id = id;
  host_id = host_id;
  key = t.key;
  name = t.name;
  value_type = t.value_type;
  units = t.units;
  interval = t.interval;
  is_enabled = true;
  is_private = false;
  source = trapper;
  config = no_config;
}

-- what `apply_to_host` returns, and the tables
pub record ApplyResult : Type 0 where
  pub created : ℕ
  pub inventory : Inventory

-- the loop, over the template's items
unfoldable pub create_missing : ℕ → List String → List TemplateItem → Inventory → ApplyResult
unfolding item_of_template
create_missing host_id existing_keys [] inv = record { created = 0; inventory = inv }
create_missing host_id existing_keys (t ∷ ts) inv =
    let skipped = create_missing host_id existing_keys ts inv in
    let rest = create_missing host_id existing_keys ts (record inv {
      items = inv.items ++ item_of_template inv.next_id host_id t ∷ [];
      next_id = suc inv.next_id;
    }) in
    if has_text t.key existing_keys
    then skipped
    else record { created = suc rest.created; inventory = rest.inventory }

module _ (before : String → String → Bool) where
  unfoldable pub apply_to_host : ℕ → ℕ → List TemplateItem → Inventory → ApplyResult
  unfolding list_items create_missing keys_of_host
  apply_to_host template_id host_id template_items inv =
      create_missing host_id (keys_of_host host_id inv.items)
        (list_items before template_id template_items) inv

  -- `skipped` of `TemplateApplyResult`
  unfoldable pub skipped_of : ℕ → List TemplateItem → ApplyResult → ℕ
  unfolding list_items
  skipped_of template_id template_items applied =
      length (list_items before template_id template_items) - applied.created
