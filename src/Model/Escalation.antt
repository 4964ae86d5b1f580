-- ===== src/Model/Escalation.antt =====
-- app/core/models/escalation.py
use ghostmon.Base.{ℕ, String, Option, Bool, List}

pub record EscalationStep : Type 0 where
  pub id : ℕ
  pub step_order : ℕ
  pub delay_minutes : ℕ
  pub channel_id : ℕ
  pub action_command : Option String

-- `steps` is the relationship, loaded in ascending `step_order`
pub record EscalationPolicy : Type 0 where
  pub id : ℕ
  pub owner_id : ℕ
  pub name : String
  pub is_enabled : Bool
  pub created_at : ℕ
  pub steps : List EscalationStep
