-- ===== src/Model/Trigger.antt =====
-- app/core/models/trigger.py
use ghostmon.Base.{ℕ, Bool, String, Option}

pub data Severity : Type 0 where
  info warning average high disaster : Severity

-- the position in the definition order
unfoldable pub rank : Severity → ℕ
rank info = 0
rank warning = 1
rank average = 2
rank high = 3
rank disaster = 4

pub data TriggerMetric : Type 0 where
  latency_ms : TriggerMetric

pub data TriggerOperator : Type 0 where
  gt ge lt le : TriggerOperator

pub data TriggerAggregation : Type 0 where
  last avg min max : TriggerAggregation

pub data TriggerState : Type 0 where
  ok problem : TriggerState

-- `a == b` on states
abbrev pub state_eq : TriggerState → TriggerState → Bool
state_eq TriggerState.ok TriggerState.ok = Bool.true
state_eq TriggerState.problem TriggerState.problem = Bool.true
state_eq _ _ = Bool.false

pub record Trigger (F : Type 0) : Type 0 where
  pub id : ℕ
  pub name : String
  pub monitor_id : Option ℕ
  pub item_id : Option ℕ
  pub metric : Option TriggerMetric
  pub operator : TriggerOperator
  pub threshold : F
  pub severity : Severity
  pub aggregation : TriggerAggregation
  pub window_seconds : ℕ
  pub is_enabled : Bool
  pub state : TriggerState
  pub state_changed_at : Option ℕ
