-- ===== src/Ingest.antt =====
-- app/api/routes/ingest.py: an agent pushes a sample.
pub mod Stored
pub mod Private
mod Tests
use ghostmon.Base.{
  ℕ, suc, Bool, true, false, String, Option, none, some, List, [], ◌∷◌, ◌++◌, get_or,
}
use ghostmon.Model.Floats.{Floats, Aggregates}
use ghostmon.Model.Monitor.{Monitor}
use ghostmon.Model.Host.{
  Host, Item, ItemValueType, ItemSource, MetricValue, float, text as text_type, trapper,
}
use ghostmon.Model.Trigger.{Trigger}
use ghostmon.Problems.{Timeline}
use ghostmon.Triggers.{evaluate_item, History}
use ghostmon.Notifications.Events.{RoutedAlert}
use ghostmon.Notifications.Dispatch.{item_trigger_alerts}
use ghostmon.Bridge.{no_config}
use ghostmon.Secrets.{Fernet}
use ghostmon.Hosts.{
  Value, number, text, get_by_name, get_by_key, ItemCreate, create_item, record_value,
}

pub record IngestPayload (F : Type 0) : Type 0 where
  pub host : String
  pub key : String
  pub value : Value F
  pub value_type : Option ItemValueType
  pub units : Option String
  pub collected_at : Option ℕ

-- The tables that an ingestion reads and writes.
pub record Tables (F : Type 0) : Type 0 where
  pub monitors : List Monitor
  pub hosts : List Host
  pub items : List Item
  pub next_item : ℕ
  pub values : List (MetricValue F)
  pub triggers : List (Trigger F)
  pub timeline : Timeline F

-- The answers 404, 422 and 201.
pub data Answer (F : Type 0) : Type 0 where
  host_not_found unprocessable : Answer F
  created : MetricValue F → Answer F

pub record Ingested (F : Type 0) : Type 0 where
  pub answer : Answer F
  pub tables : Tables F
  pub alerts : List (RoutedAlert F)

module _ {F : Type 0} where
  -- the type of a new item that the payload does not name
  unfoldable pub inferred_type : Value F → ItemValueType
  inferred_type (number x) = float
  inferred_type (text s) = text_type

  unfoldable pub trapper_item : IngestPayload F → ItemCreate
  unfolding inferred_type
  trapper_item payload = record {
    key = payload.key;
    name = payload.key;
    value_type = get_or payload.value_type (inferred_type payload.value);
    units = payload.units;
    interval = 60;
    source = trapper;
    config = no_config;
    is_enabled = true;
    is_private = false;
  }

  -- the item of the host with the key of the payload, added if it is missing
  unfoldable pub find_or_create : Fernet → ℕ → IngestPayload F → Tables F → Item × Tables F
  unfolding trapper_item
  find_or_create f host_id payload db = elim (get_by_key host_id payload.key db.items) [
    | some item ↦ (item, db)
    | none ↦
        let item = create_item f db.next_item host_id (trapper_item payload) in
        (item, record db { items = db.items ++ item ∷ []; next_item = suc db.next_item })
  ]

module _ {F : Type 0} ⦃fl : Floats F⦄ ⦃agg : Aggregates F⦄ (show_float : F → String)
    (f : Fernet) where
  -- from the sample on: the triggers of the item are evaluated, and alerted
  unfoldable pub evaluate_sample : Host → Item → MetricValue F → Tables F → Ingested F
  evaluate_sample host item sample db =
      let values = db.values ++ sample ∷ [] in
      let evaluated =
        evaluate_item (record { monitors = db.monitors; items = db.items; values = values }) item.id
          item.key item.name host.id host.name sample.value_num sample.collected_at
          (some host.owner_id) db.triggers db.timeline in
      record {
        answer = created sample;
        tables = record db {
          values = values;
          triggers = evaluated.triggers;
          timeline = evaluated.timeline;
        };
        alerts = item_trigger_alerts evaluated.fired sample.collected_at;
      }

  -- from the item on: the sample is recorded, or refused
  unfoldable pub ingest_item : Host → IngestPayload F → ℕ → Item × Tables F → Ingested F
  unfolding evaluate_sample
  ingest_item host payload now (item, db) =
      elim (record_value show_float item payload.value (get_or payload.collected_at now)) [
        | none ↦ record { answer = unprocessable; tables = db; alerts = [] }
        | some sample ↦ evaluate_sample host item sample db
      ]

  unfoldable pub ingest : ℕ → IngestPayload F → ℕ → Tables F → Ingested F
  unfolding find_or_create ingest_item
  ingest owner_id payload now db = elim (get_by_name owner_id payload.host db.hosts) [
    | none ↦ record { answer = host_not_found; tables = db; alerts = [] }
    | some host ↦ ingest_item host payload now (find_or_create f host.id payload db)
  ]
