-- ===== src/Ingest/Tests.antt =====
-- Pushing samples to a host with a watched item and a private one.
use ghostmon.Base.{ℕ, ◌≡◌, refl, true, false, String, none, some, [], ◌∷◌}
use ghostmon.Model.Floats.{nat_floats, nat_aggregates}
use ghostmon.Model.Host.{Host, Item, float, trapper}
use ghostmon.Model.Trigger.{Trigger, Severity, TriggerOperator, TriggerAggregation, TriggerState}
use ghostmon.Bridge.{no_config}
use ghostmon.Secrets.{Fernet}
use ghostmon.Problems.Open.{open_count}
use ghostmon.Triggers.Synced.{Synced}
use ghostmon.Hosts.{Value, number, text, get_by_name, get_by_key}
use ghostmon.Ingest.{IngestPayload, Tables, created, ingest}
use ghostmon.Ingest.Stored.{ingest-Synced}
use ghostmon.Ingest.Private.{private_opaque, opaque_sample}

abbrev fernet : Fernet
fernet = record { encrypt = λ n s. s; decrypt = λ t. some t }

abbrev show_number : ℕ → String
show_number n = "0"

abbrev server : Host
server = record {
  id = 3;
  name = "db1";
  description = none;
  address = none;
  is_enabled = true;
  owner_id = 7;
}

abbrev load : Item
load = record {
  id = 11;
  host_id = 3;
  key = "load";
  name = "Load";
  value_type = float;
  units = none;
  interval = 60;
  is_enabled = true;
  is_private = false;
  source = trapper;
  config = no_config;
}

abbrev diary : Item
diary = record load { id = 12; key = "diary"; is_private = true }

abbrev high_load : Trigger ℕ
high_load = record {
  id = 1;
  name = "high load";
  monitor_id = none;
  item_id = some 11;
  metric = none;
  operator = TriggerOperator.gt;
  threshold = 4;
  severity = Severity.warning;
  is_enabled = true;
  aggregation = TriggerAggregation.last;
  window_seconds = 0;
  state = TriggerState.ok;
  state_changed_at = none;
}

abbrev tables : Tables ℕ
tables = record {
  monitors = [];
  hosts = server ∷ [];
  items = load ∷ diary ∷ [];
  next_item = 20;
  values = [];
  triggers = high_load ∷ [];
  timeline = record { events = []; next_id = 1 };
}

abbrev pushed : String → Value ℕ → IngestPayload ℕ
pushed key value = record {
  host = "db1";
  key = key;
  value = value;
  value_type = none;
  units = none;
  collected_at = none;
}

ingest-Synced_example :
    Synced
      (ingest show_number fernet 7 (pushed "load" (number 9)) 50 tables).tables.triggers
      (ingest show_number fernet 7 (pushed "load" (number 9)) 50 tables).tables.timeline
unfolding open_count
ingest-Synced_example =
    ingest-Synced show_number fernet 7 (pushed "load" (number 9)) 50 tables
      (record { distinct = (tt, tt); agree = (refl, tt) })

private_opaque_example :
    ingest show_number fernet 7 (pushed "diary" (text "b64token")) 50 tables ≡ record {
      answer = created (opaque_sample show_number diary (text "b64token") 50);
      tables = record tables { values = opaque_sample show_number diary (text "b64token") 50 ∷ [] };
      alerts = [];
    }
unfolding get_by_name get_by_key
private_opaque_example =
    private_opaque show_number fernet 7 (pushed "diary" (text "b64token")) 50 tables server diary
      refl refl refl (refl, tt)
