-- ===== src/Poller/Tests.antt =====
-- Polling one item over SNMP.
use ghostmon.Base.{ℕ, ◌≡◌, refl, true, false, none, some, [], ◌∷◌}
use ghostmon.Model.Floats.{nat_floats, nat_aggregates}
use ghostmon.Model.Host.{Host, Item, float, snmp}
use ghostmon.Secrets.{Fernet}
use ghostmon.Triggers.Synced.{Synced}
use ghostmon.Ingest.{Tables}
use ghostmon.Problems.Open.{open_count}
use ghostmon.Model.Trigger.{Trigger, Severity, TriggerOperator, TriggerAggregation, TriggerState}
use ghostmon.Poller.{PollTarget, Network, target_of, due_targets, poll_due_items}
use ghostmon.Poller.Polled.{poll_due_items-Synced}

abbrev fernet : Fernet
fernet = record { encrypt = λ n s. s; decrypt = λ t. some t }

-- a network on which every agent answers "42"
abbrev answering : Network ℕ
answering = record {
  is_allowed = λ address. true;
  snmp_get = λ address port community oid. some "42";
  parse_float = λ raw. some 42;
}

abbrev switch : Host
switch = record {
  id = 3;
  name = "switch";
  description = none;
  address = some "10.0.0.2";
  is_enabled = true;
  owner_id = 7;
}

abbrev octets : Item
octets = record {
  id = 11;
  host_id = 3;
  key = "ifInOctets";
  name = "In";
  value_type = float;
  units = none;
  interval = 60;
  is_enabled = true;
  is_private = false;
  source = snmp;
  config = record { oid = some "1.3.6.1.2.1.2.2.1.10.1"; community = none; port = none };
}

abbrev flood : Trigger ℕ
flood = record {
  id = 1;
  name = "flood";
  monitor_id = none;
  item_id = some 11;
  metric = none;
  operator = TriggerOperator.gt;
  threshold = 40;
  severity = Severity.high;
  is_enabled = true;
  aggregation = TriggerAggregation.last;
  window_seconds = 0;
  state = TriggerState.ok;
  state_changed_at = none;
}

abbrev tables : Tables ℕ
tables = record {
  monitors = [];
  hosts = switch ∷ [];
  items = octets ∷ [];
  next_item = 20;
  values = [];
  triggers = flood ∷ [];
  timeline = record { events = []; next_id = 1 };
}

abbrev target : PollTarget
target = target_of octets switch "10.0.0.2"

-- the item is due at once
due_run : due_targets 5 tables.hosts tables.values tables.items ≡ target ∷ []
unfolding due_targets
due_run = refl

poll_due_items-Synced_example :
    Synced
      (poll_due_items answering fernet 5 tables).tables.triggers
      (poll_due_items answering fernet 5 tables).tables.timeline
unfolding open_count
poll_due_items-Synced_example =
    poll_due_items-Synced answering fernet 5 tables
      (record { distinct = (tt, tt); agree = (refl, tt) })
