-- ===== src/Model/Problem.antt =====
-- app/core/models/problem_event.py
use ghostmon.Base.{ℕ, String, Option}
use ghostmon.Model.Trigger.{Severity}

pub record ProblemEvent (F : Type 0) : Type 0 where
  pub id : ℕ
  pub trigger_id : ℕ
  pub owner_id : ℕ
  pub subject : String
  pub trigger_name : String
  pub severity : Severity
  pub value : Option F
  pub started_at : ℕ
  pub resolved_at : Option ℕ
  pub acknowledged_at : Option ℕ
  pub acknowledged_by_id : Option ℕ
  -- the highest step already executed; 0 is none yet
  pub escalated_step : ℕ
