-- ===== src/Ingest/Private.antt =====
-- Ingestion of a private item (app/api/routes/ingest.py).
use ghostmon.Base.{
  ℕ, ◌≡◌, refl, Bool, true, ◌||◌, String, Option, none, some, List, [], ◌∷◌, ◌++◌, get_or, arith,
  ◌==◌, All, ap, ◌∙◌,
}
use ghostmon.Model.Floats.{Floats, Aggregates}
use ghostmon.Model.Host.{Host, Item, MetricValue}
use ghostmon.Model.Trigger.{Trigger}
use ghostmon.Problems.{Timeline}
use ghostmon.Triggers.{History, evaluate_item, observe_item, is_last}
use ghostmon.Triggers.Blind.{rows_blind}
use ghostmon.Notifications.Dispatch.{item_trigger_alerts}
use ghostmon.Secrets.{Fernet}
use ghostmon.Hosts.{Value, get_by_name, get_by_key, record_value, show_value}
use ghostmon.Ingest.{
  IngestPayload, Tables, created, find_or_create, evaluate_sample, ingest, ingest_item,
}

-- a trigger that looks at the new value only
abbrev pub is_instant : {F : Type 0} → Trigger F → Bool
is_instant t = is_last t.aggregation || t.window_seconds == 0

abbrev pub AllInstant : {F : Type 0} → List (Trigger F) → Type 0
AllInstant ts = All (λ t. is_instant t ≡ true) ts

module _ {F : Type 0} ⦃fl : Floats F⦄ ⦃agg : Aggregates F⦄ where
  unobserved :
      (db : History F) (i now : ℕ) (ts : List (Trigger F))
      → AllInstant ts
      → All (λ t. observe_item db i none now t ≡ none) ts
  unfolding observe_item
  unobserved db i now [] h = tt
  unobserved db i now (t ∷ ts) h = (ground (arith, h.0), unobserved db i now ts h.1)

  quiet :
      (db : History F) (i now h : ℕ) (key name host : String) (owner : Option ℕ)
      (ts : List (Trigger F)) (tl : Timeline F)
      → AllInstant ts
      → evaluate_item db i key name h host none now owner ts tl
        ≡ record { triggers = ts; timeline = tl; fired = [] }
  unfolding evaluate_item
  quiet db i now h key name host owner ts tl instant =
      rows_blind _ _ _ _ _ ts tl (unobserved db i now ts instant)

found :
    {F : Type 0} (f : Fernet) (h : ℕ) (p : IngestPayload F) (db : Tables F) (item : Item)
    → get_by_key h p.key db.items ≡ some item
    → find_or_create f h p db ≡ (item, db)
unfolding find_or_create
found f h p db item there = rw (there, find_or_create) refl

-- the sample of a private item: the text as it was sent, and no number
abbrev pub opaque_sample : {F : Type 0} → (F → String) → Item → Value F → ℕ → MetricValue F
opaque_sample show_float item value at = record {
  item_id = item.id;
  value_num = none;
  value_text = some (show_value show_float value);
  collected_at = at;
}

module _ {F : Type 0} ⦃fl : Floats F⦄ ⦃agg : Aggregates F⦄ (show_float : F → String)
    (f : Fernet) where
  ingest-found :
      (o : ℕ) (p : IngestPayload F) (now : ℕ) (db : Tables F) (host : Host)
      → get_by_name o p.host db.hosts ≡ some host
      → ingest show_float f o p now db
        ≡ ingest_item show_float f host p now (find_or_create f host.id p db)
  unfolding ingest
  ingest-found o p now db host here = rw (here, ingest) refl

  -- A value that is pushed to a private item is stored as the text that was sent, whatever the type of
  -- the item, and where no trigger aggregates over a window, no trigger is evaluated on it: the triggers,
  -- the problem events and all other tables are as before, and nothing is alerted.
  pub private_opaque :
      (o : ℕ) (p : IngestPayload F) (now : ℕ) (db : Tables F) (host : Host) (item : Item)
      → get_by_name o p.host db.hosts ≡ some host
      → get_by_key host.id p.key db.items ≡ some item
      → item.is_private ≡ true
      → AllInstant db.triggers
      → let sample = opaque_sample show_float item p.value (get_or p.collected_at now) in
        ingest show_float f o p now db ≡ record {
          answer = created sample;
          tables = record db { values = db.values ++ sample ∷ [] };
          alerts = [];
        }
  unfolding ingest_item record_value evaluate_sample item_trigger_alerts
  private_opaque o p now db host item here there private instant =
      ingest-found o p now db host here
      ∙ ap (ingest_item show_float f host p now) (found f host.id p db item there)
      ∙ rw private (
          rw
            (quiet _ item.id (get_or p.collected_at now) host.id item.key item.name host.name
              (some host.owner_id) db.triggers db.timeline instant)
            refl)
