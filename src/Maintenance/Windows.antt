-- ===== src/Maintenance/Windows.antt =====
-- When a window is active, and what a change of a window may do.
use ghostmon.Base.{
  ℕ, ◌≤◌, ◌<◌, ◌≡◌, ◌↔◌, refl, true, false, ◌&&◌, none, some, List, [], ◌∷◌, Memᴰ, arith,
  Bool-cases, inl, inr, subst,
}
use ghostmon.Model.Maintenance.{Maintenance, MaintenanceLink, once}
use ghostmon.Maintenance.{
  Calendar, is_maintenance_active, is_monitor_under_maintenance, is_valid_maintenance, links_to,
  MaintenanceUpdate, update,
}

module _ (cal : Calendar) where
  -- A one-shot window that was accepted on creation and is switched on is active exactly from its
  -- start to its end, both included, and that is for longer than an instant.
  pub once_window_lem :
      (m : Maintenance) (start end_ now : ℕ)
      → is_valid_maintenance cal m ≡ true
      → m.is_active ≡ true
      → m.strategy ≡ once
      → m.start_at ≡ some start
      → m.end_at ≡ some end_
      → ((is_maintenance_active cal m now ≡ true) ↔ ((start ≤ now) × (now ≤ end_))) × (start < end_)
  unfolding is_maintenance_active is_valid_maintenance
  once_window_lem m start end_ now v a k s e =
      (((λ h. ground arith), (λ h. ground (arith, h.0, h.1))), ground arith)

  -- some window of the monitor is active
  abbrev pub Silenced : List Maintenance → List MaintenanceLink → ℕ → ℕ → Type 0
  Silenced maintenances links monitor_id now =
      (m : Maintenance) × Memᴰ m maintenances
      × (links_to monitor_id links m ≡ true)
      × (is_maintenance_active cal m now ≡ true)

  under-Silenced :
      (ms : List Maintenance) (links : List MaintenanceLink) (monitor_id now : ℕ)
      → is_monitor_under_maintenance cal ms links monitor_id now ≡ true
      → Silenced ms links monitor_id now
  unfolding is_monitor_under_maintenance
  under-Silenced [] links monitor_id now h = cc
  under-Silenced (m ∷ ms) links monitor_id now h =
      elim (Bool-cases (links_to monitor_id links m && m.is_active)) [
        | inr other ↦
            let r = under-Silenced ms links monitor_id now (rw other at h) in
            (r.0, Memᴰ.tail r.1, r.2, r.3)
        | inl mine ↦ elim (Bool-cases (is_maintenance_active cal m now)) [
          | inl on ↦ (m, Memᴰ.head refl, ground arith, on)
          | inr off ↦
              let r = under-Silenced ms links monitor_id now (rw off at (rw mine at h)) in
              (r.0, Memᴰ.tail r.1, r.2, r.3)
        ]
      ]

  Silenced-under :
      (ms : List Maintenance) (links : List MaintenanceLink) (monitor_id now : ℕ)
      → Silenced ms links monitor_id now
      → is_monitor_under_maintenance cal ms links monitor_id now ≡ true
  unfolding is_monitor_under_maintenance
  Silenced-under [] links monitor_id now (m, on, linked, active) = elim on [ ]
  Silenced-under (x ∷ xs) links monitor_id now (m, Memᴰ.head e, linked, active) =
      let linked' = subst (λ z. links_to monitor_id links z ≡ true) e linked in
      let active' = subst (λ z. is_maintenance_active cal z now ≡ true) e active in
      let mine : (links_to monitor_id links x && x.is_active) ≡ true = ground arith in
      rw mine (ground arith)
  Silenced-under (x ∷ xs) links monitor_id now (m, Memᴰ.tail on, linked, active) =
      let rest = Silenced-under xs links monitor_id now (m, on, linked, active) in
      elim (Bool-cases (links_to monitor_id links x && x.is_active)) [
        | inr other ↦ rw other rest
        | inl mine ↦ rw mine (ground (arith, rest))
      ]

  -- A monitor is under maintenance exactly if some window that is linked to it is active.
  pub under_maintenance_iff :
      (ms : List Maintenance) (links : List MaintenanceLink) (monitor_id now : ℕ)
      → (is_monitor_under_maintenance cal ms links monitor_id now ≡ true)
        ↔ Silenced ms links monitor_id now
  under_maintenance_iff ms links monitor_id now =
      (under-Silenced ms links monitor_id now, Silenced-under ms links monitor_id now)

  -- A PATCH that sets only the end of a one-shot window, to its start or to a time before it, is stored
  -- though the row that it leaves is refused by the schema that reads it back.
  pub patched_window_unreadable :
      (m : Maintenance) (payload : MaintenanceUpdate) (start end_ : ℕ)
      → m.strategy ≡ once
      → m.start_at ≡ some start
      → payload.strategy ≡ none
      → payload.start_at ≡ none
      → payload.end_at ≡ some (some end_)
      → end_ ≤ start
      → is_valid_maintenance cal (update m payload) ≡ false
  unfolding is_valid_maintenance update
  patched_window_unreadable m payload start end_ k s uk us ue le = ground arith
