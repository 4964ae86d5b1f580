-- ===== src/Scheduler/Stored.antt =====
-- What a probe job stores: the status of its monitor, and the agreement of triggers and timeline.
use ghostmon.Base.{
  ℕ, ◌≡◌, refl, some, String, List, [], ◌∷◌, arith, if◌then◌else◌, Bool-cases, inl, inr, ◌==◌,
  subst, Option-cases, some_inj,
}
use ghostmon.Model.Floats.{Floats, Aggregates}
use ghostmon.Model.Monitor.{Monitor, MonitorStatus, status_eq}
use ghostmon.Triggers.Synced.{Synced, evaluate-Synced}
use ghostmon.Scheduler.{
  Database, get_monitor, finish_probe_job, Finished, status_of_probe, write_status, write_host,
  update_monitor,
}
use ghostmon.Scheduler.Retries.{Attempt}

module _ (change : Monitor → Monitor) (keeps : (m : Monitor) → (change m).id ≡ m.id) where
  get-update :
      (i : ℕ) (ms : List Monitor) (row : Monitor)
      → get_monitor ms i ≡ some row
      → get_monitor (update_monitor i change ms) i ≡ some (change row)
  unfolding get_monitor
  get-update i [] row h = cc
  get-update i (m ∷ ms) row h = elim (Bool-cases (m.id == i)) [
    | inl e ↦ rw (e, keeps m) (ground (arith, e, keeps m))
    | inr e ↦ rw (e, e) (get-update i ms row (ground arith))
  ]

-- the status that a monitor has after a job that loaded `loaded` status and found `new`, where the row
-- had `stored` at the moment of the commit
abbrev pub committed : MonitorStatus → MonitorStatus → MonitorStatus → MonitorStatus
committed loaded new stored = if status_eq loaded new then stored else new

-- the row of a monitor is there, with the status
abbrev pub HasStatus : List Monitor → ℕ → MonitorStatus → Type 0
HasStatus monitors i status =
    (row : Monitor) × (get_monitor monitors i ≡ some row) × (row.status ≡ status)

write_status-HasStatus :
    (m : Monitor) (new : MonitorStatus) (ms : List Monitor) (row : Monitor)
    → get_monitor ms m.id ≡ some row
    → HasStatus (write_status m new ms) m.id (committed m.status new row.status)
unfolding write_status
write_status-HasStatus m new ms row here = elim (Bool-cases (status_eq m.status new)) [
  | inl same ↦ rw (same, write_status) (row, here, refl)
  | inr other ↦
      rw (other, write_status)
        (
          record row { status = new },
          get-update (λ x. record x { status = new }) (λ x. refl) m.id ms row here,
          refl,
        )
]

write_host-HasStatus :
    (m : Monitor) (h : ℕ) (ms : List Monitor) (status : MonitorStatus)
    → HasStatus ms m.id status
    → HasStatus (write_host m h ms) m.id status
unfolding write_host
write_host-HasStatus m h ms status (row, here, e) = elim (Option-cases m.host_id) [
  | inr (old, known) ↦ rw (known, write_host) (row, here, e)
  | inl unknown ↦
      rw (unknown, write_host)
        (
          record row { host_id = some h },
          get-update (λ x. record x { host_id = some h }) (λ x. refl) m.id ms row here,
          e,
        )
]

module _ {F : Type 0} ⦃fl : Floats F⦄ ⦃agg : Aggregates F⦄ (short_hex : ℕ → String) where
  -- Where the row of the monitor is there at the commit, a job that finishes leaves it there: with the
  -- status that the row has at that moment if what the job found is the status that it loaded before the
  -- probe, and with what it found if not, so that what others wrote meanwhile is lost.
  pub stored_status :
      (m row : Monitor) (attempts : List Attempt) (final : Attempt) (now : ℕ) (db : Database F)
      (r : Finished F)
      → get_monitor db.monitors m.id ≡ some row
      → finish_probe_job short_hex m attempts final now db ≡ some r
      → HasStatus r.database.monitors m.id
          (committed m.status (status_of_probe final.outcome.status) row.status)
  unfolding finish_probe_job
  stored_status m row attempts final now db r here done =
      let e = rw (here, finish_probe_job) at done in
      subst
        (λ (z : Finished F).
          HasStatus z.database.monitors m.id
            (committed m.status (status_of_probe final.outcome.status) row.status))
        (some_inj e)
        (write_host-HasStatus m _ _ _
          (write_status-HasStatus m (status_of_probe final.outcome.status) db.monitors row here))

  -- A job leaves the triggers and the problem events in agreement, if they agree when its probe
  -- returns: one ongoing event for a trigger in PROBLEM, none for one in OK.
  pub probe_job-Synced :
      (m : Monitor) (attempts : List Attempt) (final : Attempt) (now : ℕ) (db : Database F)
      (r : Finished F)
      → Synced db.triggers db.timeline
      → finish_probe_job short_hex m attempts final now db ≡ some r
      → Synced r.database.triggers r.database.timeline
  unfolding finish_probe_job
  probe_job-Synced m attempts final now db r s done =
      elim (Option-cases (get_monitor db.monitors m.id)) [
        | inl gone ↦ cc (rw (gone, finish_probe_job) at done)
        | inr (row, here) ↦
            subst (λ (z : Finished F). Synced z.database.triggers z.database.timeline)
              (some_inj (rw (here, finish_probe_job) at done))
              (evaluate-Synced _ m.id _ now m.owner_id m.name _ _ s)
      ]
