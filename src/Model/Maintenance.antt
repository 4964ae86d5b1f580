-- ===== src/Model/Maintenance.antt =====
-- app/core/models/maintenance.py
use ghostmon.Base.{ℕ, String, Option, Bool}

pub data MaintenanceStrategy : Type 0 where
  once cron : MaintenanceStrategy

pub record Maintenance : Type 0 where
  pub id : ℕ
  pub title : String
  pub description : Option String
  pub is_active : Bool
  pub strategy : MaintenanceStrategy
  pub start_at : Option ℕ
  pub end_at : Option ℕ
  pub cron : Option String
  pub duration_minutes : Option ℕ
  pub timezone : String
  pub owner_id : ℕ

-- a row of `maintenance_monitors`
pub record MaintenanceLink : Type 0 where
  pub maintenance_id : ℕ
  pub monitor_id : ℕ
