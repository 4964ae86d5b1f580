-- ===== src/Scheduler/Jobs.antt =====
-- `_reconcile_jobs` of app/tasks/scheduler.py: one probe job for every monitor that is not paused.
pub mod Reconciled
use ghostmon.Base.{
  ℕ, Bool, true, false, ◌&&◌, not, Option, none, some, List, [], ◌∷◌, ◌==◌, if◌then◌else◌, filterb,
  elem, map, ◌≡◌, ◌≢◌,
}
use ghostmon.Model.Monitor.{Monitor, MonitorStatus, status_eq}

-- What is read of apscheduler: the jobs of the scheduler that are not reserved, by the monitor of
-- their id, and of each the seconds of its interval (`none`: its trigger is of another class).
pub record JobStore (S : Type 0) : Type 0 where
  pub managed_ids : S → List ℕ
  -- the outer `none` is `get_job` returning None
  pub get_job : S → ℕ → Option (Option ℕ)
  pub remove_job : ℕ → S → S
  pub add_job : ℕ → ℕ → S → S
  pub reschedule_job : ℕ → ℕ → S → S

-- What apscheduler documents of them.
pub record IsJobStore {S : Type 0} (js : JobStore S) : Type 0 where
  pub get-remove : (s : S) (i : ℕ) → js.get_job (js.remove_job i s) i ≡ none
  pub get-remove_ne : (s : S) (i j : ℕ) → i ≢ j → js.get_job (js.remove_job i s) j ≡ js.get_job s j
  pub get-add : (s : S) (i n : ℕ) → js.get_job (js.add_job i n s) i ≡ some (some n)
  pub get-add_ne : (s : S) (i n j : ℕ) → i ≢ j → js.get_job (js.add_job i n s) j ≡ js.get_job s j
  pub get-reschedule : (s : S) (i n : ℕ) → js.get_job (js.reschedule_job i n s) i ≡ some (some n)
  pub get-reschedule_ne :
      (s : S) (i n j : ℕ) → i ≢ j → js.get_job (js.reschedule_job i n s) j ≡ js.get_job s j
  -- `get_jobs` lists the jobs that `get_job` finds
  pub unmanaged : (s : S) (i : ℕ) → elem i (js.managed_ids s) ≡ false → js.get_job s i ≡ none

-- `desired`: the monitors that are not paused
abbrev pub is_active : Monitor → Bool
is_active m = not (status_eq m.status MonitorStatus.paused)

unfoldable pub desired_monitors : List Monitor → List Monitor
desired_monitors = filterb is_active

abbrev pub monitor_ids : List Monitor → List ℕ
monitor_ids = map (λ m. m.id)

abbrev pub same_interval : Option ℕ → ℕ → Bool
same_interval none interval = false
same_interval (some current) interval = current == interval

module _ {S : Type 0} (js : JobStore S) where
  -- the first loop, over `managed_ids - desired_ids`
  unfoldable pub remove_stale : List ℕ → List ℕ → S → S
  remove_stale [] desired s = s
  remove_stale (i ∷ managed) desired s =
      if elem i desired
      then remove_stale managed desired s
      else remove_stale managed desired (js.remove_job i s)

  -- one round of the second loop
  unfoldable pub schedule_monitor : Monitor → S → S
  schedule_monitor m s = elim (js.get_job s m.id) [
    | none ↦ js.add_job m.id m.interval s
    | some current ↦
        if same_interval current m.interval then s else js.reschedule_job m.id m.interval s
  ]

  unfoldable pub schedule_desired : List Monitor → S → S
  unfolding schedule_monitor
  schedule_desired [] s = s
  schedule_desired (m ∷ ms) s = schedule_desired ms (schedule_monitor m s)

  unfoldable pub reconcile_jobs : List Monitor → S → S
  unfolding desired_monitors remove_stale schedule_desired
  reconcile_jobs monitors s =
      let desired = desired_monitors monitors in
      schedule_desired desired (remove_stale (js.managed_ids s) (monitor_ids desired) s)
