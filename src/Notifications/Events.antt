-- ===== src/Notifications/Events.antt =====
-- app/tasks/notifications/events.py
use ghostmon.Base.{ℕ, Bool, String, Option}
use ghostmon.Model.Trigger.{Severity, TriggerMetric, TriggerOperator, TriggerState, info, high}
use ghostmon.Model.Monitor.{MonitorType, MonitorStatus, status_eq}
use ghostmon.Base.{if◌then◌else◌}

pub record AlertEvent : Type 0 where
  pub monitor_id : ℕ
  pub monitor_name : String
  pub monitor_type : MonitorType
  pub monitor_url : String
  pub previous_status : MonitorStatus
  pub new_status : MonitorStatus
  pub latency_ms : Option ℕ
  pub error : Option String
  pub timestamp : ℕ

pub record TriggerAlertEvent (F : Type 0) : Type 0 where
  pub monitor_id : ℕ
  pub monitor_name : String
  pub monitor_type : MonitorType
  pub monitor_url : String
  pub trigger_name : String
  pub severity : Severity
  pub metric : Option TriggerMetric
  pub operator : TriggerOperator
  pub threshold : F
  pub value : F
  pub new_state : TriggerState
  pub timestamp : ℕ

pub record ItemTriggerAlertEvent (F : Type 0) : Type 0 where
  pub host_id : ℕ
  pub host_name : String
  pub item_key : String
  pub item_name : String
  pub trigger_name : String
  pub severity : Severity
  pub operator : TriggerOperator
  pub threshold : F
  pub value : F
  pub new_state : TriggerState
  pub timestamp : ℕ

pub record EscalationAlertEvent (F : Type 0) : Type 0 where
  pub problem_id : ℕ
  pub subject : String
  pub trigger_name : String
  pub severity : Severity
  pub step_order : ℕ
  pub value : Option F
  pub started_at : ℕ
  pub timestamp : ℕ
  pub action_command : Option String

-- `RoutedAlert`: the events that go to the channels of a monitor or a host
pub data RoutedAlert (F : Type 0) : Type 0 where
  status_alert : AlertEvent → RoutedAlert F
  trigger_alert : TriggerAlertEvent F → RoutedAlert F
  item_trigger_alert : ItemTriggerAlertEvent F → RoutedAlert F

-- `AlertEvent.is_recovery` and `AlertEvent.severity`
abbrev pub is_recovery : AlertEvent → Bool
is_recovery e = status_eq e.new_status MonitorStatus.up

unfoldable pub severity : AlertEvent → Severity
severity e = if is_recovery e then info else high

unfoldable pub severity_of : {F : Type 0} → RoutedAlert F → Severity
unfolding severity
severity_of (status_alert e) = severity e
severity_of (trigger_alert e) = e.severity
severity_of (item_trigger_alert e) = e.severity
