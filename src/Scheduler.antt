-- ===== src/Scheduler.antt =====
-- app/tasks/scheduler.py: the probe job of a monitor, in its two halves around the probe.
pub mod Retries
mod Tests
pub mod Jobs
pub mod Stored
pub mod Retried
pub mod Alerts
use ghostmon.Base.{
  ℕ, suc, Bool, true, false, ◌&&◌, ◌||◌, not, String, Option, none, some, List, [], ◌∷◌, ◌++◌, map,
  ◌==◌, str_eq, if◌then◌else◌, find,
}
use ghostmon.Model.Floats.{Floats, Aggregates}
use ghostmon.Model.Monitor.{Monitor, MonitorStatus, MonitorResult, ProbeStatus, status_eq}
use ghostmon.Model.Host.{MetricValue}
use ghostmon.Model.Trigger.{Trigger, TriggerMetric}
use ghostmon.Model.Maintenance.{Maintenance, MaintenanceLink}
use ghostmon.Problems.{Timeline}
use ghostmon.Triggers.{TriggerFired, Evaluated, History, evaluate}
use ghostmon.Notifications.Events.{
  AlertEvent, TriggerAlertEvent, RoutedAlert, status_alert, trigger_alert,
}
use ghostmon.Maintenance.{Calendar, is_monitor_under_maintenance}
use ghostmon.Bridge.{Inventory, Backed, BackingItems, ensure_backing_items}
use ghostmon.Scheduler.Retries.{ProbeOutcome, Attempt, is_up, last_attempt, probe_with_retries}

-- The tables that a probe job reads and writes.
pub record Database (F : Type 0) : Type 0 where
  pub monitors : List Monitor
  pub results : List MonitorResult
  pub triggers : List (Trigger F)
  pub timeline : Timeline F
  pub inventory : Inventory
  pub values : List (MetricValue F)
  pub maintenances : List Maintenance
  pub maintenance_links : List MaintenanceLink

unfoldable pub get_monitor : List Monitor → ℕ → Option Monitor
get_monitor monitors monitor_id = find (λ (m : Monitor). m.id == monitor_id) monitors

-- What the UPDATE of one row leaves.
abbrev pub update_monitor : ℕ → (Monitor → Monitor) → List Monitor → List Monitor
update_monitor monitor_id change = map (λ (m : Monitor). if m.id == monitor_id then change m else m)

abbrev pub is_paused : Monitor → Bool
is_paused m = status_eq m.status MonitorStatus.paused

-- The half before the probe: the monitor as the session loads it, or `none` where the job returns.
unfoldable pub begin_probe_job : {F : Type 0} → Calendar → ℕ → ℕ → Database F → Option Monitor
unfolding get_monitor
begin_probe_job cal monitor_id now db = elim (get_monitor db.monitors monitor_id) [
  | none ↦ none
  | some m ↦
      if is_paused m
        || is_monitor_under_maintenance cal db.maintenances db.maintenance_links m.id now
      then none
      else some m
]

abbrev pub status_of_probe : ProbeStatus → MonitorStatus
status_of_probe ProbeStatus.up = MonitorStatus.up
status_of_probe ProbeStatus.down = MonitorStatus.down

unfoldable pub result_of : ℕ → Attempt → MonitorResult
result_of monitor_id a = record {
  monitor_id = monitor_id;
  status = a.outcome.status;
  latency_ms = a.outcome.latency_ms;
  error = a.outcome.error;
  checked_at = a.probed_at;
}

-- The attribute `status` is written if it differs from what was loaded.
unfoldable pub write_status : Monitor → MonitorStatus → List Monitor → List Monitor
write_status loaded new monitors =
    if status_eq loaded.status new
    then monitors
    else update_monitor loaded.id (λ m. record m { status = new }) monitors

-- The attribute `host_id` is written if the monitor had no host.
unfoldable pub write_host : Monitor → ℕ → List Monitor → List Monitor
write_host loaded host_id monitors = elim loaded.host_id [
  | some h ↦ monitors
  | none ↦ update_monitor loaded.id (λ m. record m { host_id = some host_id }) monitors
]

-- `should_alert`
unfoldable pub should_alert : MonitorStatus → MonitorStatus → Bool
should_alert previous new =
    (status_eq previous MonitorStatus.up || status_eq previous MonitorStatus.down)
    && not (status_eq previous new)

unfoldable pub status_event : Monitor → MonitorStatus → ProbeOutcome → ℕ → AlertEvent
status_event loaded new final now = record {
  monitor_id = loaded.id;
  monitor_name = loaded.name;
  monitor_type = loaded.kind;
  monitor_url = loaded.url;
  previous_status = loaded.status;
  new_status = new;
  latency_ms = final.latency_ms;
  error = final.error;
  timestamp = now;
}

unfoldable pub trigger_event : {F : Type 0} → Monitor → ℕ → TriggerFired F → TriggerAlertEvent F
trigger_event m now f = record {
  monitor_id = m.id;
  monitor_name = m.name;
  monitor_type = m.kind;
  monitor_url = m.url;
  trigger_name = f.trigger_name;
  severity = f.severity;
  metric = f.metric;
  operator = f.operator;
  threshold = f.threshold;
  value = f.value;
  new_state = f.new_state;
  timestamp = now;
}

-- the last loop of the job, after the alert of the status
unfoldable pub alerts_of :
    {F : Type 0}
    → Monitor
    → MonitorStatus
    → ProbeOutcome
    → ℕ
    → List (TriggerFired F)
    → List (RoutedAlert F)
unfolding should_alert status_event trigger_event
alerts_of loaded new final now fired =
    (if should_alert loaded.status new
      then status_alert (status_event loaded new final now) ∷ []
      else [])
    ++ map (λ f. trigger_alert (trigger_event loaded now f)) fired

abbrev pub opt_map {ℓ κ} : {A : Type ℓ} {B : Type κ} → (A → B) → Option A → Option B
opt_map f none = none
opt_map f (some a) = some (f a)

module _ {F : Type 0} ⦃fl : Floats F⦄ where
  -- `metric_values`
  unfoldable pub metric_values : ProbeOutcome → TriggerMetric → Option F
  metric_values final TriggerMetric.latency_ms = opt_map fl.of_int final.latency_ms

  -- the samples of the status, the latency and the error
  unfoldable pub mirrored : BackingItems → MonitorStatus → ProbeOutcome → ℕ → List (MetricValue F)
  mirrored items new final now =
      let sample : ℕ → Option F → Option String → MetricValue F = λ item num txt. record {
        item_id = item;
        value_num = num;
        value_text = txt;
        collected_at = now;
      } in
      let up_or_down = if status_eq new MonitorStatus.up then 1 else 0 in
      sample items.status.id (some (fl.of_int up_or_down)) none ∷ elim final.latency_ms [
        | none ↦ []
        | some ms ↦ sample items.latency.id (some (fl.of_int ms)) none ∷ []
      ]
      ++ elim final.error [
        | none ↦ []
        | some e ↦ if str_eq e "" then [] else sample items.error.id none (some e) ∷ []
      ]

-- what a job leaves
pub record Finished (F : Type 0) : Type 0 where
  pub database : Database F
  pub alerts : List (RoutedAlert F)

module _ {F : Type 0} ⦃fl : Floats F⦄ ⦃agg : Aggregates F⦄ (short_hex : ℕ → String) where
  -- The half after the probe. `loaded` is the monitor of the first half; `db` is what the tables have
  -- become meanwhile. `none`: the row is gone, and the commit of its results fails.
  unfoldable pub finish_probe_job :
      Monitor → List Attempt → Attempt → ℕ → Database F → Option (Finished F)
  unfolding get_monitor write_status write_host result_of metric_values mirrored alerts_of
  finish_probe_job loaded attempts final now db = elim (get_monitor db.monitors loaded.id) [
    | none ↦ none
    | some row ↦
        let new = status_of_probe final.outcome.status in
        let monitors = write_status loaded new db.monitors in
        let evaluated =
          evaluate (record { monitors = monitors; items = db.inventory.items; values = db.values })
            loaded.id (metric_values final.outcome) now (some loaded.owner_id) (some loaded.name)
            db.triggers db.timeline in
        let backed = ensure_backing_items short_hex loaded db.inventory in
        some (record {
          database = record db {
            monitors = write_host loaded backed.host_id monitors;
            results = db.results ++ map (result_of loaded.id) attempts;
            triggers = evaluated.triggers;
            timeline = evaluated.timeline;
            inventory = backed.inventory;
            values = db.values ++ mirrored backed.items new final.outcome now;
          };
          alerts = alerts_of loaded new final.outcome now evaluated.fired;
        })
  ]

  -- The whole job, with what the others do to the tables while the probe runs.
  unfoldable pub run_probe_job :
      Calendar
      → (ℕ → Attempt)
      → (Database F → Database F)
      → ℕ
      → ℕ
      → ℕ
      → Database F
      → Option (Finished F)
  unfolding begin_probe_job finish_probe_job
  run_probe_job cal run_probe meanwhile monitor_id started now db =
      elim (begin_probe_job cal monitor_id started db) [
        | none ↦ some (record { database = db; alerts = [] })
        | some loaded ↦
            let attempts = probe_with_retries run_probe loaded in
            finish_probe_job loaded attempts (last_attempt (run_probe 0) attempts) now
              (meanwhile db)
      ]
