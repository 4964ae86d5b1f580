-- ===== src/Maintenance.antt =====
-- app/core/services/maintenance_service.py and app/core/schemas/maintenance.py: alert silencing.
pub mod Windows
pub mod Links
mod Tests
use ghostmon.Base.{
  set_or, ℕ, ◌+◌, Bool, true, false, ◌&&◌, ◌||◌, not, String, Option, none, some, List, [], ◌∷◌,
  ◌++◌, leb, ltb, ◌==◌, if◌then◌else◌, str_eq, is_some, find, filterb, minutes, map, length_in,
  max_length, suc,
}
use ghostmon.Model.Maintenance.{Maintenance, MaintenanceStrategy, MaintenanceLink, once, cron}

-- What croniter and the time zone database answer.
pub record Calendar : Type 0 where
  -- the fire time that `get_prev` returns, of an expression in a zone, from an instant
  pub get_prev : String → String → ℕ → ℕ
  pub is_valid : String → Bool
  pub is_zone : String → Bool

-- `not s`, of an optional string
abbrev pub is_blank : Option String → Bool
is_blank none = true
is_blank (some s) = str_eq s ""

abbrev pub links_to : ℕ → List MaintenanceLink → Maintenance → Bool
links_to monitor_id links m =
    is_some
      (find (λ (l : MaintenanceLink). l.monitor_id == monitor_id && l.maintenance_id == m.id) links)

unfoldable pub active_maintenances_for_monitor :
    List Maintenance → List MaintenanceLink → ℕ → List Maintenance
active_maintenances_for_monitor maintenances links monitor_id =
    filterb (λ m. links_to monitor_id links m && m.is_active) maintenances

abbrev ends_after : Option ℕ → Option ℕ → Bool
ends_after (some start) (some end_) = ltb start end_
ends_after _ _ = false

abbrev fields_fit : MaintenanceStrategy → Maintenance → Bool
fields_fit once m = ends_after m.start_at m.end_at
fields_fit cron m = not (is_blank m.cron) && is_some m.duration_minutes

abbrev duration_fits : Option ℕ → Bool
duration_fits none = true
duration_fits (some d) = leb 1 d && leb d 20160

unfoldable pub once_window : Option ℕ → Option ℕ → ℕ → Bool
once_window (some start) (some end_) now = leb start now && leb now end_
once_window _ _ now = false

module _ (cal : Calendar) where
  -- `_safe_zoneinfo`
  unfoldable pub safe_zoneinfo : String → String
  safe_zoneinfo name = if cal.is_zone name then name else "UTC"

  unfoldable pub cron_window : Option String → Option ℕ → String → ℕ → Bool
  unfolding safe_zoneinfo
  cron_window none duration timezone now = false
  cron_window (some expr) none timezone now = false
  cron_window (some expr) (some duration) timezone now =
      let previous_fire = cal.get_prev expr (safe_zoneinfo timezone) now in
      if str_eq expr ""
      then false
      else leb previous_fire now && leb now (previous_fire + minutes duration)

  unfoldable pub strategy_window : MaintenanceStrategy → Maintenance → ℕ → Bool
  unfolding once_window cron_window
  strategy_window once m now = once_window m.start_at m.end_at now
  strategy_window cron m now = cron_window m.cron m.duration_minutes m.timezone now

  unfoldable pub is_maintenance_active : Maintenance → ℕ → Bool
  unfolding strategy_window
  is_maintenance_active m now = if not m.is_active then false else strategy_window m.strategy m now

  unfoldable pub any_active : List Maintenance → ℕ → Bool
  unfolding is_maintenance_active
  any_active [] now = false
  any_active (m ∷ ms) now =
      let rest = any_active ms now in if is_maintenance_active m now then true else rest

  unfoldable pub is_monitor_under_maintenance :
      List Maintenance → List MaintenanceLink → ℕ → ℕ → Bool
  unfolding active_maintenances_for_monitor any_active
  is_monitor_under_maintenance maintenances links monitor_id now =
      any_active (active_maintenances_for_monitor maintenances links monitor_id) now

  abbrev cron_fits : Option String → Bool
  cron_fits none = true
  cron_fits (some expr) = cal.is_valid expr

  -- `MaintenanceBase`: what is accepted on creation, and what can be read back
  unfoldable pub is_valid_maintenance : Maintenance → Bool
  is_valid_maintenance m =
      length_in 1 255 m.title
      && max_length 128 m.cron
      && length_in 0 64 m.timezone
      && cron_fits m.cron
      && duration_fits m.duration_minutes
      && fields_fit m.strategy m

-- The tables of windows and of their monitors, and the next UUID.
pub record Tables : Type 0 where
  pub maintenances : List Maintenance
  pub links : List MaintenanceLink
  pub next_id : ℕ

-- `create`: the payload is a row but for the id and the owner
unfoldable pub create_maintenance : Maintenance → ℕ → Tables → Maintenance × Tables
create_maintenance payload owner_id db =
    let maintenance : Maintenance = record payload { id = db.next_id; owner_id = owner_id } in
    (
      maintenance,
      record db { maintenances = db.maintenances ++ maintenance ∷ []; next_id = suc db.next_id },
    )

unfoldable pub get_maintenance : ℕ → ℕ → Tables → Option Maintenance
get_maintenance maintenance_id owner_id db =
    find (λ (m : Maintenance). m.id == maintenance_id && m.owner_id == owner_id) db.maintenances

-- `delete`, with the links, which the database deletes with it
unfoldable pub delete_maintenance : Maintenance → Tables → Tables
delete_maintenance maintenance db = record db {
  maintenances = filterb (λ (m : Maintenance). not (m.id == maintenance.id)) db.maintenances;
  links = filterb (λ (l : MaintenanceLink). not (l.maintenance_id == maintenance.id)) db.links;
}

-- The fields of a PATCH: `none` is a field that is not set. A null for a column that may not be
-- null, which the database refuses, is left out.
pub record MaintenanceUpdate : Type 0 where
  pub title : Option String
  pub description : Option (Option String)
  pub is_active : Option Bool
  pub strategy : Option MaintenanceStrategy
  pub start_at : Option (Option ℕ)
  pub end_at : Option (Option ℕ)
  pub cron : Option (Option String)
  pub duration_minutes : Option (Option ℕ)
  pub timezone : Option String

-- `update`: `setattr` of the fields that are set. A null for a column that may not be NULL, which the
-- database refuses, is no value of the payload's fields here.
unfoldable pub update : Maintenance → MaintenanceUpdate → Maintenance
update m payload = record m {
  title = set_or payload.title m.title;
  description = set_or payload.description m.description;
  is_active = set_or payload.is_active m.is_active;
  strategy = set_or payload.strategy m.strategy;
  start_at = set_or payload.start_at m.start_at;
  end_at = set_or payload.end_at m.end_at;
  cron = set_or payload.cron m.cron;
  duration_minutes = set_or payload.duration_minutes m.duration_minutes;
  timezone = set_or payload.timezone m.timezone;
}

-- `attach_monitor`: INSERT … ON CONFLICT DO NOTHING
unfoldable pub attach_monitor : ℕ → ℕ → List MaintenanceLink → List MaintenanceLink
attach_monitor maintenance_id monitor_id links =
    if is_some (
      find
        (λ (l : MaintenanceLink). l.maintenance_id == maintenance_id && l.monitor_id == monitor_id)
        links)
    then links
    else links ++ record { maintenance_id = maintenance_id; monitor_id = monitor_id } ∷ []

unfoldable pub detach_monitor : ℕ → ℕ → List MaintenanceLink → List MaintenanceLink
detach_monitor maintenance_id monitor_id links =
    filterb (λ l. not (l.maintenance_id == maintenance_id && l.monitor_id == monitor_id)) links

unfoldable pub monitors_for_maintenance : ℕ → List MaintenanceLink → List ℕ
monitors_for_maintenance maintenance_id links =
    map (λ (l : MaintenanceLink). l.monitor_id)
      (filterb (λ l. l.maintenance_id == maintenance_id) links)
