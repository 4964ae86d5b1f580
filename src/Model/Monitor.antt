-- ===== src/Model/Monitor.antt =====
-- app/core/models/monitor.py and monitor_result.py
use ghostmon.Base.{ℕ, String, Option, Bool}

pub data MonitorType : Type 0 where
  http tcp ping ssl snmp docker : MonitorType

pub data MonitorStatus : Type 0 where
  up down pending paused : MonitorStatus

abbrev pub status_eq : MonitorStatus → MonitorStatus → Bool
status_eq up up = Bool.true
status_eq down down = Bool.true
status_eq pending pending = Bool.true
status_eq paused paused = Bool.true
status_eq _ _ = Bool.false

pub record Monitor : Type 0 where
  pub id : ℕ
  pub name : String
  pub kind : MonitorType  -- `type`
  pub url : String
  pub interval : ℕ
  pub retries : ℕ
  pub retry_interval : ℕ
  pub status : MonitorStatus
  pub owner_id : ℕ
  pub host_id : Option ℕ

pub data ProbeStatus : Type 0 where
  up down : ProbeStatus

pub record MonitorResult : Type 0 where
  pub monitor_id : ℕ
  pub status : ProbeStatus
  pub latency_ms : Option ℕ
  pub error : Option String
  pub checked_at : ℕ
