-- ===== src/Notifications/Dispatch/Tests.antt =====
-- The routing of the alerts of a monitor with two channels.
use ghostmon.Base.{ℕ, ◌≡◌, ◌↔◌, refl, true, none, some, [], ◌∷◌, Memᴰ}
use ghostmon.Model.Trigger.{info, average, rank}
use ghostmon.Model.Monitor.{Monitor, MonitorStatus, MonitorType}
use ghostmon.Model.Channel.{NotificationChannel, ChannelType}
use ghostmon.Notifications.Events.{AlertEvent, status_alert, severity, severity_of}
use ghostmon.Notifications.Dispatch.{Directory, dispatch_alert, links_channel, monitor_owner}
use ghostmon.Notifications.Dispatch.Routed.{Receives, dispatch-Receives}

abbrev site : Monitor
site = record {
  id = 5;
  name = "site";
  kind = MonitorType.http;
  url = "https://site.test";
  interval = 60;
  retries = 2;
  retry_interval = 5;
  status = MonitorStatus.up;
  owner_id = 7;
  host_id = none;
}

abbrev everything : NotificationChannel
everything = record {
  id = 1;
  name = "all";
  kind = ChannelType.email;
  config = record { to = some "a@site.test"; url = none; secret = none };
  is_enabled = true;
  min_severity = info;
  owner_id = 7;
}

abbrev pager : NotificationChannel
pager = record everything { id = 2; name = "pager"; min_severity = average }

abbrev directory : Directory
directory = record {
  monitors = site ∷ [];
  hosts = [];
  channels = everything ∷ pager ∷ [];
  monitor_channels =
      record { target_id = 5; channel_id = 1 } ∷ record { target_id = 5; channel_id = 2 } ∷ [];
  host_channels = [];
}

abbrev went_down : AlertEvent
went_down = record {
  monitor_id = 5;
  monitor_name = "site";
  monitor_type = MonitorType.http;
  monitor_url = "https://site.test";
  previous_status = MonitorStatus.up;
  new_status = MonitorStatus.down;
  latency_ms = none;
  error = some "timeout";
  timestamp = 9;
}

abbrev recovered : AlertEvent
recovered = record went_down { previous_status = MonitorStatus.down; new_status = MonitorStatus.up }

-- the pager hears that the site is down, and not that it is back
recovered_run : dispatch_alert {F = ℕ} directory (status_alert recovered) ≡ everything ∷ []
unfolding dispatch_alert severity_of severity links_channel monitor_owner rank
recovered_run = refl

dispatch-Receives_example :
    Memᴰ pager (dispatch_alert {F = ℕ} directory (status_alert went_down))
    ↔ Receives directory went_down pager
dispatch-Receives_example =
    dispatch-Receives ℕ directory went_down pager (Memᴰ.tail (Memᴰ.head refl))
