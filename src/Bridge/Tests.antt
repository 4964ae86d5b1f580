-- ===== src/Bridge/Tests.antt =====
-- Provisioning a monitor twice.
use ghostmon.Base.{ℕ, String, none, []}
use ghostmon.Model.Monitor.{Monitor, MonitorStatus, MonitorType}
use ghostmon.Bridge.{Inventory, Backed, ensure_backing_items}

abbrev site : Monitor
site = record {
  id = 5;
  name = "site";
  kind = MonitorType.http;
  url = "https://site.test";
  interval = 60;
  retries = 2;
  retry_interval = 5;
  status = MonitorStatus.up;
  owner_id = 7;
  host_id = none;
}

abbrev hex : ℕ → String
hex n = "0"

abbrev no_rows : Inventory
no_rows = record { hosts = []; items = []; next_id = 100 }

abbrev first : Backed
first = ensure_backing_items hex site no_rows
