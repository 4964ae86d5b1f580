-- ===== src/Templates/Applied.antt =====
-- `apply_to_host` of app/core/services/template_service.py: the keys of the host, before and after.
use ghostmon.Base.{
  str_eq_refl, ℕ, suc, ◌≡◌, refl, Bool, true, ◌&&◌, ◌||◌, not, String, List, [], ◌∷◌, ◌++◌, map,
  arith, ◌==◌, ==_refl, str_eq, has_text, has_text-cong, filterb, Bool-cases, inl, inr, ap, ◌∙◌,
}
use ghostmon.Model.Host.{Item}
use ghostmon.Model.Template.{TemplateItem}
use ghostmon.Bridge.{Inventory}
use ghostmon.Templates.{
  insert_by_key, sort_by_key, list_items, keys_of_host, item_of_template, create_missing,
  apply_to_host,
}

abbrev pub template_keys : List TemplateItem → List String
template_keys = map (λ t. t.key)

keys-append :
    (h : ℕ) (k : String) (items : List Item) (i : Item)
    → i.host_id ≡ h
    → has_text k (keys_of_host h (items ++ i ∷ []))
      ≡ (has_text k (keys_of_host h items) || str_eq k i.key)
unfolding keys_of_host
keys-append h k [] i e = rw (e, ==_refl) (ground arith)
keys-append h k (j ∷ js) i e = ground (arith, keys-append h k js i e)

-- what is known is in the template or not, and is added only if it is not on the host
missing-keys :
    (h : ℕ) (k : String) (known : List String) (ts : List TemplateItem) (inv : Inventory)
    → has_text k (keys_of_host h (create_missing h known ts inv).inventory.items) ≡ (
        has_text k (keys_of_host h inv.items)
        || has_text k (template_keys ts) && not (has_text k known))
unfolding create_missing item_of_template
missing-keys h k known [] inv = ground arith
missing-keys h k known (t ∷ ts) inv =
    let added : Inventory = record inv {
      items = inv.items ++ item_of_template inv.next_id h t ∷ [];
      next_id = suc inv.next_id;
    } in
    let cong = has_text-cong k t.key known in
    elim (Bool-cases (has_text t.key known)) [
      | inl there ↦ rw there (ground (arith, there, cong, missing-keys h k known ts inv))
      | inr new ↦ rw new (
          ground (
            arith,
            new,
            cong,
            missing-keys h k known ts added,
            keys-append h k inv.items (item_of_template inv.next_id h t) refl,
          ))
    ]

-- the order in which the items are loaded does not matter
insert-keys :
    (before : String → String → Bool) (k : String) (t : TemplateItem) (ts : List TemplateItem)
    → has_text k (template_keys (insert_by_key before t ts))
      ≡ (str_eq k t.key || has_text k (template_keys ts))
unfolding insert_by_key
insert-keys before k t [] = refl
insert-keys before k t (u ∷ us) = ground (arith, insert-keys before k t us)

sort-keys :
    (before : String → String → Bool) (k : String) (ts : List TemplateItem)
    → has_text k (template_keys (sort_by_key before ts)) ≡ has_text k (template_keys ts)
unfolding sort_by_key
sort-keys before k [] = refl
sort-keys before k (t ∷ ts) =
    insert-keys before k t (sort_by_key before ts)
    ∙ ap (λ b. str_eq k t.key || b) (sort-keys before k ts)

abbrev pub items_of : ℕ → List TemplateItem → List TemplateItem
items_of template_id = filterb (λ (i : TemplateItem). i.template_id == template_id)

module _ (before : String → String → Bool) where
  -- Seen as sets of keys, applying a template to a host is a union: afterwards the host has exactly the
  -- keys that it had and those of the template's items.
  pub apply_to_host-union :
      (template_id h : ℕ) (template_items : List TemplateItem) (inv : Inventory) (k : String)
      → has_text k
          (keys_of_host h (apply_to_host before template_id h template_items inv).inventory.items)
        ≡ (has_text k (keys_of_host h inv.items)
            || has_text k (template_keys (items_of template_id template_items)))
  unfolding apply_to_host list_items
  apply_to_host-union template_id h template_items inv k = ground (
    arith,
    missing-keys h k (keys_of_host h inv.items)
        (sort_by_key before (items_of template_id template_items)) inv,
    sort-keys before k (items_of template_id template_items),
  )

-- every key of the template is known
abbrev covered : List String → List TemplateItem → Bool
covered known [] = true
covered known (t ∷ ts) = has_text t.key known && covered known ts

covered-nothing :
    (h : ℕ) (known : List String) (ts : List TemplateItem) (inv : Inventory)
    → covered known ts ≡ true
    → create_missing h known ts inv ≡ record { created = 0; inventory = inv }
unfolding create_missing
covered-nothing h known [] inv c = refl
covered-nothing h known (t ∷ ts) inv c = ground (arith, c, covered-nothing h known ts inv)

covers :
    (known : List String) (ts : List TemplateItem)
    → ((k : String) → has_text k (template_keys ts) ≡ true → has_text k known ≡ true)
    → covered known ts ≡ true
covers known [] h = refl
covers known (t ∷ ts) h =
    let first = h t.key (ground (arith, str_eq_refl t.key)) in
    ground (arith, first, covers known ts (λ k e. h k (ground (arith, e))))

module _ (before : String → String → Bool) where
  -- Applying a template a second time to a host creates nothing and changes no table.
  pub apply_to_host_again :
      (template_id h : ℕ) (template_items : List TemplateItem) (inv : Inventory)
      → let after = (apply_to_host before template_id h template_items inv).inventory in
        apply_to_host before template_id h template_items after
        ≡ record { created = 0; inventory = after }
  unfolding apply_to_host list_items
  apply_to_host_again template_id h template_items inv =
      let ts = sort_by_key before (items_of template_id template_items) in
      let after = (create_missing h (keys_of_host h inv.items) ts inv).inventory in
      covered-nothing h (keys_of_host h after.items) ts after (
        covers (keys_of_host h after.items) ts
          (λ k e. ground (arith, e, missing-keys h k (keys_of_host h inv.items) ts inv)))
