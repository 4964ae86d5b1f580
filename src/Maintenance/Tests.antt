-- ===== src/Maintenance/Tests.antt =====
-- The theorems on windows at concrete windows.
use ghostmon.Base.{◌≡◌, ◌↔◌, refl, true, false, none, some, List, [], ◌∷◌, arith, str_eq}
use ghostmon.Model.Maintenance.{Maintenance, MaintenanceLink, once, cron}
use ghostmon.Maintenance.{
  Calendar, is_monitor_under_maintenance, is_valid_maintenance, MaintenanceUpdate, update,
}
use ghostmon.Maintenance.Windows.{under_maintenance_iff, Silenced, patched_window_unreadable}

-- a calendar in which every expression fires once, at the time 100
abbrev calendar : Calendar
calendar = record { get_prev = λ e z now. 100; is_valid = λ e. true; is_zone = λ z. str_eq z "UTC" }

abbrev night : Maintenance
night = record {
  id = 1;
  title = "night";
  description = none;
  is_active = true;
  strategy = once;
  start_at = some 10;
  end_at = some 20;
  cron = none;
  duration_minutes = none;
  timezone = "UTC";
  owner_id = 7;
}

abbrev weekly : Maintenance
weekly = record night {
  strategy = cron;
  start_at = none;
  end_at = none;
  cron = some "0 3 * * 0";
  duration_minutes = some 30;
}

abbrev links : List MaintenanceLink
links = record { maintenance_id = 1; monitor_id = 5 } ∷ []

under_maintenance_iff_example :
    (is_monitor_under_maintenance calendar (night ∷ []) links 5 15 ≡ true)
    ↔ Silenced calendar (night ∷ []) links 5 15
under_maintenance_iff_example = under_maintenance_iff calendar (night ∷ []) links 5 15

silenced_run : is_monitor_under_maintenance calendar (night ∷ []) links 5 15 ≡ true
unfolding is_monitor_under_maintenance
silenced_run = refl

abbrev shorten : MaintenanceUpdate
shorten = record {
  title = none;
  description = none;
  is_active = none;
  strategy = none;
  start_at = none;
  end_at = some (some 5);
  cron = none;
  duration_minutes = none;
  timezone = none;
}

patched_window_unreadable_example : is_valid_maintenance calendar (update night shorten) ≡ false
patched_window_unreadable_example =
    patched_window_unreadable calendar night shorten 10 5 refl refl refl refl refl (omega arith)
