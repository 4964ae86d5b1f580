-- ===== src/Scheduler/Jobs/Reconciled.antt =====
-- What jobs there are after `_reconcile_jobs` of app/tasks/scheduler.py.
use ghostmon.Base.{
  ℕ, ◌≡◌, ◌≢◌, refl, false, Option, none, some, List, [], ◌∷◌, ◌∙◌, arith, ap, subst, ◌==◌,
  if◌then◌else◌, elem, find, Bool-cases, Option-cases, inl, inr, Absent, Distinct, ==→eq, filterb,
  is_some, Distinct-filterb,
}
use ghostmon.Model.Monitor.{Monitor}
use ghostmon.Scheduler.Jobs.{
  JobStore, IsJobStore, is_active, desired_monitors, monitor_ids, remove_stale, schedule_monitor,
  schedule_desired, reconcile_jobs,
}

-- the job of a monitor, or else another
abbrev pub job_or : Option Monitor → Option (Option ℕ) → Option (Option ℕ)
job_or none other = other
job_or (some m) other = some (some m.interval)

-- the interval that the job of a monitor should have
abbrev pub interval_of : List Monitor → ℕ → Option (Option ℕ)
interval_of ms i = job_or (find (λ (m : Monitor). m.id == i) ms) none

find-Absent :
    (ms : List Monitor) (i : ℕ)
    → Absent (λ (m : Monitor). m.id) i ms
    → find (λ (m : Monitor). m.id == i) ms ≡ none
find-Absent [] i a = refl
find-Absent (m ∷ ms) i a = ground (arith, find-Absent ms i a.1, a.0)

elem-find :
    (ms : List Monitor) (i : ℕ)
    → elem i (monitor_ids ms) ≡ is_some (find (λ (m : Monitor). m.id == i) ms)
elem-find [] i = refl
elem-find (m ∷ ms) i = ground (arith, elem-find ms i)

module _ {S : Type 0} (js : JobStore S) (laws : IsJobStore js) where
  -- the first loop leaves the wanted jobs alone, and of the others those that were not listed
  remove-get :
      (managed wanted : List ℕ) (s : S) (i : ℕ)
      → js.get_job (remove_stale js managed wanted s) i ≡ (
          if elem i wanted then js.get_job s i else if elem i managed then none else js.get_job s i)
  unfolding remove_stale
  remove-get [] wanted s i = ground arith
  remove-get (k ∷ ks) wanted s i = elim (Bool-cases (k == i)) [
    | inl same ↦
        let e = ==→eq k i same in
        ground (
          arith,
          remove-get ks wanted s i,
          remove-get ks wanted (js.remove_job k s) i,
          ap (λ z. elem z wanted) e,
          subst (λ z. js.get_job (js.remove_job k s) z ≡ none) e (laws.get-remove s k),
        )
    | inr other ↦ ground (
      arith,
      remove-get ks wanted s i,
      remove-get ks wanted (js.remove_job k s) i,
      laws.get-remove_ne s k i (λ e. ground (arith, e)),
    )
  ]

  schedule-own :
      (m : Monitor) (s : S) → js.get_job (schedule_monitor js m s) m.id ≡ some (some m.interval)
  unfolding schedule_monitor
  schedule-own m s = elim (Option-cases (js.get_job s m.id)) [
    | inl absent ↦ rw (absent, schedule_monitor) (laws.get-add s m.id m.interval)
    | inr (some n, there) ↦
        rw (there, schedule_monitor) (ground (arith, there, laws.get-reschedule s m.id m.interval))
    | inr (none, there) ↦ rw (there, schedule_monitor) (laws.get-reschedule s m.id m.interval)
  ]

  schedule-other :
      (m : Monitor) (s : S) (i : ℕ)
      → m.id ≢ i
      → js.get_job (schedule_monitor js m s) i ≡ js.get_job s i
  unfolding schedule_monitor
  schedule-other m s i ne =
      ground (
        arith,
        laws.get-add_ne s m.id m.interval i ne,
        laws.get-reschedule_ne s m.id m.interval i ne,
      )

  schedule-get :
      (ms : List Monitor) (s : S) (i : ℕ)
      → Distinct (λ (m : Monitor). m.id) ms
      → js.get_job (schedule_desired js ms s) i
        ≡ job_or (find (λ (m : Monitor). m.id == i) ms) (js.get_job s i)
  unfolding schedule_desired
  schedule-get [] s i d = refl
  schedule-get (m ∷ ms) s i d = elim (Bool-cases (m.id == i)) [
    | inr other ↦ rw other (
        schedule-get ms (schedule_monitor js m s) i d.1
        ∙ ap (job_or (find (λ (x : Monitor). x.id == i) ms))
            (schedule-other m s i (λ e. ground (arith, e))))
    | inl same ↦
        let e = ==→eq m.id i same in
        rw same (
          rw
            (
              schedule-get ms (schedule_monitor js m s) i d.1,
              find-Absent ms i (subst (λ z. Absent (λ (x : Monitor). x.id) z ms) e d.0),
            )
            (subst (λ z. js.get_job (schedule_monitor js m s) z ≡ some (some m.interval)) e
              (schedule-own m s)))
  ]

  -- After a reconciliation, with different monitor ids, the job of a monitor exists exactly if the
  -- monitor exists and is not paused, and it has the monitor's interval, whatever jobs there were.
  pub reconcile_jobs-interval :
      (monitors : List Monitor) (s : S) (i : ℕ)
      → Distinct (λ (m : Monitor). m.id) monitors
      → js.get_job (reconcile_jobs js monitors s) i ≡ interval_of (desired_monitors monitors) i
  unfolding reconcile_jobs desired_monitors
  reconcile_jobs-interval monitors s i d =
      let desired = filterb is_active monitors in
      let removed = remove-get (js.managed_ids s) (monitor_ids desired) s i in
      schedule-get desired (remove_stale js (js.managed_ids s) (monitor_ids desired) s) i
        (Distinct-filterb (λ (m : Monitor). m.id) is_active monitors d)
      ∙ elim (Option-cases (find (λ (m : Monitor). m.id == i) desired)) [
        | inr (m, found) ↦ rw found refl
        | inl absent ↦
            let unwanted : elem i (monitor_ids desired) ≡ false =
              elem-find desired i ∙ ap is_some absent in
            rw absent (
              removed
              ∙ rw unwanted (elim (Bool-cases (elem i (js.managed_ids s))) [
                | inl managed ↦ rw managed refl
                | inr unmanaged ↦ rw unmanaged (laws.unmanaged s i unmanaged)
              ]))
      ]
