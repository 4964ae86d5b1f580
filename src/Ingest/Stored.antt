-- ===== src/Ingest/Stored.antt =====
-- What an ingestion stores on each of its branches.
use ghostmon.Base.{
  ℕ, ◌≡◌, refl, String, Option, none, some, List, get_or, str_eq_refl, ==_refl, find-append,
  Option-cases, inl, inr, ◌∙◌, ap,
}
use ghostmon.Model.Floats.{Floats, Aggregates}
use ghostmon.Model.Host.{Host, Item}
use ghostmon.Triggers.Synced.{Synced, evaluate_item-Synced}
use ghostmon.Secrets.{Fernet}
use ghostmon.Hosts.{get_by_name, get_by_key, create_item, record_value}
use ghostmon.Ingest.{
  IngestPayload, Tables, trapper_item, find_or_create, evaluate_sample, ingest, ingest_item,
}

module _ {F : Type 0} (f : Fernet) where
  -- after the item was looked for and perhaps added, it is found
  found_after :
      (h : ℕ) (p : IngestPayload F) (db : Tables F)
      → get_by_key h p.key (find_or_create f h p db).1.items ≡ some (find_or_create f h p db).0
  unfolding find_or_create get_by_key create_item trapper_item
  found_after h p db = elim (Option-cases (get_by_key h p.key db.items)) [
    | inr (i, e) ↦ rw (e, find_or_create) e
    | inl e ↦ rw (e, find_or_create) (rw (find-append, e, get_by_key, ==_refl, str_eq_refl) refl)
  ]

  found_kept :
      (h : ℕ) (p : IngestPayload F) (db : Tables F) (i : Item)
      → get_by_key h p.key db.items ≡ some i
      → (find_or_create f h p db).1.items ≡ db.items
  unfolding find_or_create
  found_kept h p db i e = rw (e, find_or_create) refl

-- the tables beside that of the items are not touched
tables_kept :
    {F : Type 0} (f : Fernet) (h : ℕ) (q : IngestPayload F) (d : Tables F)
    → ((find_or_create f h q d).1.hosts ≡ d.hosts)
      × ((find_or_create f h q d).1.triggers ≡ d.triggers)
      × ((find_or_create f h q d).1.timeline ≡ d.timeline)
unfolding find_or_create
tables_kept f h q d = elim (Option-cases (get_by_key h q.key d.items)) [
  | inr (i, e) ↦ rw (e, find_or_create) (refl, refl, refl)
  | inl e ↦ rw (e, find_or_create) (refl, refl, refl)
]

abbrev items_after : {F : Type 0} → Fernet → Option Host → IngestPayload F → Tables F → List Item
items_after f none p db = db.items
items_after f (some host) p db = (find_or_create f host.id p db).1.items

module _ {F : Type 0} ⦃fl : Floats F⦄ ⦃agg : Aggregates F⦄ (show_float : F → String)
    (f : Fernet) where
  ingest-tables :
      (o : ℕ) (p : IngestPayload F) (now : ℕ) (db : Tables F)
      → ((ingest show_float f o p now db).tables.items
          ≡ items_after f (get_by_name o p.host db.hosts) p db)
        × ((ingest show_float f o p now db).tables.hosts ≡ db.hosts)
  unfolding ingest ingest_item evaluate_sample
  ingest-tables o p now db = elim (Option-cases (get_by_name o p.host db.hosts)) [
    | inl gone ↦ rw (gone, ingest) (refl, refl)
    | inr (host, here) ↦
        elim (Option-cases (
          record_value show_float (find_or_create f host.id p db).0 p.value
            (get_or p.collected_at now))) [
              | inl refused ↦
                  rw (here, refused, ingest, ingest_item) (refl, (tables_kept f host.id p db).0)
              | inr (sample, taken) ↦
                  rw (here, taken, ingest, ingest_item) (refl, (tables_kept f host.id p db).0)
            ]
  ]

  -- A second ingestion for the same host and key, whatever its value, and whatever became of the first,
  -- adds no item: the key of a host is created once at most.
  pub ingest_same_key :
      (o : ℕ) (p q : IngestPayload F) (now later : ℕ) (db : Tables F)
      → q.host ≡ p.host
      → q.key ≡ p.key
      → (ingest show_float f o q later (ingest show_float f o p now db).tables).tables.items
        ≡ (ingest show_float f o p now db).tables.items
  ingest_same_key o p q now later db host key =
      let first = ingest-tables o p now db in
      let second = ingest-tables o q later (ingest show_float f o p now db).tables in
      let same : get_by_name o q.host (ingest show_float f o p now db).tables.hosts
          ≡ get_by_name o p.host db.hosts =
        rw (first.1, host) refl in
      elim (Option-cases (get_by_name o p.host db.hosts)) [
        | inl gone ↦ second.0 ∙ ap looked_up (same ∙ gone) ∙ rw (first.0, gone) refl
        | inr (h, here) ↦
            second.0
            ∙ ap looked_up (same ∙ here)
            ∙ found_kept f h.id q (ingest show_float f o p now db).tables
                (find_or_create f h.id p db).0 (rw (key, first.0, here) (found_after f h.id p db))
      ]
    where
      looked_up : Option Host → List Item
      looked_up found = items_after f found q (ingest show_float f o p now db).tables

  -- An ingestion keeps the agreement of triggers and timeline on each of its branches, the two error
  -- answers included: one ongoing problem event for a trigger in PROBLEM, none for one in OK.
  pub ingest-Synced :
      (o : ℕ) (p : IngestPayload F) (now : ℕ) (db : Tables F)
      → Synced db.triggers db.timeline
      → Synced
          (ingest show_float f o p now db).tables.triggers
          (ingest show_float f o p now db).tables.timeline
  unfolding ingest ingest_item evaluate_sample
  ingest-Synced o p now db s = elim (Option-cases (get_by_name o p.host db.hosts)) [
    | inl gone ↦ rw (gone, ingest) s
    | inr (host, here) ↦
        let kept = tables_kept f host.id p db in
        let still : Synced (find_or_create f host.id p db).1.triggers
            (find_or_create f host.id p db).1.timeline =
          rw (kept.1, kept.2) s in
        elim (Option-cases (
          record_value show_float (find_or_create f host.id p db).0 p.value
            (get_or p.collected_at now))) [
              | inl refused ↦ rw (here, refused, ingest, ingest_item) still
              | inr (sample, taken) ↦
                  rw (here, taken, ingest, ingest_item)
                    (evaluate_item-Synced _ _ _ _ _ _ _ _ host.owner_id _ _ still)
            ]
  ]
