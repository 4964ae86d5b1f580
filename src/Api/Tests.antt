-- ===== src/Api/Tests.antt =====
-- Two users: one deletes a monitor with its host, and names the host of the other.
use ghostmon.Base.{ℕ, ◌≡◌, refl, Bool, true, none, some, [], ◌∷◌, Option}
use ghostmon.Model.Monitor.{Monitor, MonitorStatus, MonitorType}
use ghostmon.Model.Host.{Host, Item, ItemValueType, trapper}
use ghostmon.Secrets.{Fernet}
use ghostmon.Bridge.{no_config}
use ghostmon.Api.{Site, not_found}
use ghostmon.Api.Requests.{delete_monitor, delete_host, handle}
use ghostmon.Api.Untouched.{Untouched}

abbrev plain : Fernet
plain = record { encrypt = λ n s. s; decrypt = λ s. some s }

abbrev monitor : ℕ → ℕ → Option ℕ → Monitor
monitor id owner_id host_id = record {
  id = id;
  name = "m";
  kind = MonitorType.http;
  url = "https://site.test";
  interval = 60;
  retries = 0;
  retry_interval = 5;
  status = MonitorStatus.up;
  owner_id = owner_id;
  host_id = host_id;
}

abbrev host : ℕ → ℕ → Host
host id owner_id = record {
  id = id;
  name = "h";
  description = none;
  address = none;
  is_enabled = true;
  owner_id = owner_id;
}

abbrev item : ℕ → ℕ → Item
item id host_id = record {
  id = id;
  host_id = host_id;
  key = "cpu";
  name = "cpu";
  value_type = ItemValueType.float;
  units = none;
  interval = 60;
  is_enabled = true;
  is_private = Bool.false;
  source = trapper;
  config = no_config;
}

-- the user 7 has a monitor with the host 3, the user 8 a monitor and the host 4
abbrev site : Site ℕ
site = record {
  monitors = monitor 1 7 (some 3) ∷ monitor 2 8 none ∷ [];
  results = [];
  hosts = host 3 7 ∷ host 4 8 ∷ [];
  items = item 5 3 ∷ item 6 4 ∷ [];
  values = [];
  trends = [];
  triggers = [];
  events = [];
  channels = [];
  monitor_channels = [];
  host_channels = [];
  maintenance_links = [];
  next_id = 10;
}

foreign_run : handle plain 7 (delete_host 4) site ≡ (not_found, site)
unfolding handle
foreign_run = refl

deleted_run : (handle plain 7 (delete_monitor 1) site).1.hosts ≡ host 4 8 ∷ []
unfolding handle
deleted_run = refl
