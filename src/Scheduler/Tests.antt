-- ===== src/Scheduler/Tests.antt =====
-- Probe jobs and their reconciliation at concrete monitors.
use ghostmon.Base.{
  ℕ, ◌≡◌, ◌≢◌, refl, true, false, Option, none, some, List, [], ◌∷◌, map, arith, ◌==◌,
  if◌then◌else◌, elem, String,
}
use ghostmon.Model.Floats.{nat_floats, nat_aggregates}
use ghostmon.Model.Monitor.{Monitor, MonitorStatus, MonitorType, ProbeStatus}
use ghostmon.Model.Trigger.{
  Trigger, Severity, TriggerMetric, TriggerOperator, TriggerAggregation, TriggerState,
}
use ghostmon.Problems.{Timeline}
use ghostmon.Triggers.Synced.{Synced}
use ghostmon.Maintenance.{Calendar}
use ghostmon.Problems.Open.{open_count}
use ghostmon.Scheduler.{Database, Finished, get_monitor, finish_probe_job}
use ghostmon.Scheduler.Retries.{Attempt, ProbeOutcome, probe_with_retries}
use ghostmon.Scheduler.Retried.{until_up, runs, probe_with_retries_lem}
use ghostmon.Scheduler.Stored.{HasStatus, committed, stored_status, probe_job-Synced}
use ghostmon.Scheduler.Jobs.{JobStore, IsJobStore, reconcile_jobs, desired_monitors}
use ghostmon.Scheduler.Jobs.Reconciled.{interval_of, reconcile_jobs-interval}

abbrev site : Monitor
site = record {
  id = 5;
  name = "site";
  kind = MonitorType.http;
  url = "https://site.test";
  interval = 60;
  retries = 2;
  retry_interval = 5;
  status = MonitorStatus.up;
  owner_id = 7;
  host_id = none;
}

abbrev failed : ProbeOutcome
failed = record { status = ProbeStatus.down; latency_ms = none; error = some "timeout" }

-- every probe fails
abbrev unreachable : ℕ → Attempt
unreachable n = record { outcome = failed; probed_at = n }

abbrev no_timeline : Timeline ℕ
no_timeline = record { events = []; next_id = 1 }

abbrev db_of : Monitor → Database ℕ
db_of m = record {
  monitors = m ∷ [];
  results = [];
  triggers = [];
  timeline = no_timeline;
  inventory = record { hosts = []; items = []; next_id = 100 };
  values = [];
  maintenances = [];
  maintenance_links = [];
}

abbrev calendar : Calendar
calendar = record { get_prev = λ e z now. 0; is_valid = λ e. true; is_zone = λ z. true }

abbrev hex : ℕ → String
hex n = "0"

abbrev pause : Database ℕ → Database ℕ
pause db = record db {
  monitors = map {A = Monitor} (λ m. record m { status = MonitorStatus.paused }) db.monitors;
}

probe_with_retries_lem_example :
    probe_with_retries unreachable site ≡ until_up (runs unreachable 0 3)
probe_with_retries_lem_example = probe_with_retries_lem unreachable site

-- the job of the site that fails while it is paused
abbrev job : Option (Finished ℕ)
job = finish_probe_job hex site (unreachable 0 ∷ []) (unreachable 0) 9 (pause (db_of site))

abbrev left_over : Option (Finished ℕ) → Finished ℕ
left_over none = record { database = db_of site; alerts = [] }
left_over (some r) = r

stored_status_example :
    HasStatus
      (left_over job).database.monitors
      5
      (committed MonitorStatus.up MonitorStatus.down MonitorStatus.paused)
unfolding finish_probe_job get_monitor
stored_status_example =
    stored_status hex site (record site { status = MonitorStatus.paused }) (unreachable 0 ∷ [])
      (unreachable 0) 9 (pause (db_of site)) (left_over job) refl refl

abbrev slow : Trigger ℕ
slow = record {
  id = 1;
  name = "slow";
  monitor_id = some 5;
  item_id = none;
  metric = some TriggerMetric.latency_ms;
  operator = TriggerOperator.gt;
  threshold = 100;
  severity = Severity.warning;
  is_enabled = true;
  aggregation = TriggerAggregation.last;
  window_seconds = 0;
  state = TriggerState.ok;
  state_changed_at = none;
}

abbrev watched : Database ℕ
watched = record (db_of site) { triggers = slow ∷ [] }

abbrev up_slowly : Attempt
up_slowly = record {
  outcome = record { status = ProbeStatus.up; latency_ms = some 250; error = none };
  probed_at = 8;
}

abbrev slow_job : Option (Finished ℕ)
slow_job = finish_probe_job hex site (up_slowly ∷ []) up_slowly 9 watched

probe_job-Synced_example :
    Synced (left_over slow_job).database.triggers (left_over slow_job).database.timeline
unfolding finish_probe_job get_monitor open_count
probe_job-Synced_example =
    probe_job-Synced hex site (up_slowly ∷ []) up_slowly 9 watched (left_over slow_job)
      (record { distinct = (tt, tt); agree = (refl, tt) }) refl

-- a scheduler that keeps its jobs in a list, the newest of an id first
abbrev Jobs : Type 0
Jobs = List (ℕ × Option ℕ)

abbrev job_of : ℕ → Jobs → Option (Option ℕ)
job_of i [] = none
job_of i ((j, n) ∷ js) = let rest = job_of i js in if j == i then some n else rest

abbrev without : ℕ → Jobs → Jobs
without i [] = []
without i ((j, n) ∷ js) = let rest = without i js in if j == i then rest else (j, n) ∷ rest

abbrev job_ids : Jobs → List ℕ
job_ids = map (λ (j : ℕ × Option ℕ). j.0)

abbrev list_store : JobStore Jobs
list_store = record {
  managed_ids = job_ids;
  get_job = λ s i. job_of i s;
  remove_job = without;
  add_job = λ i n s. (i, some n) ∷ s;
  reschedule_job = λ i n s. (i, some n) ∷ s;
}

job_of-without : (i : ℕ) (s : Jobs) → job_of i (without i s) ≡ none
job_of-without i [] = refl
job_of-without i ((j, n) ∷ js) = ground (arith, job_of-without i js)

job_of-without_ne : (i j : ℕ) (s : Jobs) → i ≢ j → job_of j (without i s) ≡ job_of j s
job_of-without_ne i j [] ne = refl
job_of-without_ne i j ((k, n) ∷ js) ne = ground (arith, ne, job_of-without_ne i j js ne)

job_of-unmanaged : (i : ℕ) (s : Jobs) → elem i (job_ids s) ≡ false → job_of i s ≡ none
job_of-unmanaged i [] h = refl
job_of-unmanaged i ((k, n) ∷ js) h = ground (arith, job_of-unmanaged i js (ground arith))

list_store-IsJobStore : IsJobStore list_store
list_store-IsJobStore = record {
  get-remove = λ s i. job_of-without i s;
  get-remove_ne = λ s i j ne. job_of-without_ne i j s ne;
  get-add = λ s i n. ground arith;
  get-add_ne = λ s i n j ne. ground (arith, ne);
  get-reschedule = λ s i n. ground arith;
  get-reschedule_ne = λ s i n j ne. ground (arith, ne);
  unmanaged = λ s i h. job_of-unmanaged i s h;
}

reconcile_jobs-interval_example :
    list_store.get_job (reconcile_jobs list_store (site ∷ []) ((5, some 30) ∷ (6, some 10) ∷ [])) 6
    ≡ interval_of (desired_monitors (site ∷ [])) 6
reconcile_jobs-interval_example =
    reconcile_jobs-interval list_store list_store-IsJobStore (site ∷ [])
      ((5, some 30) ∷ (6, some 10) ∷ []) 6 (tt, tt)
