-- ===== src/Scheduler/Alerts.antt =====
-- When a probe job alerts that a monitor went down or recovered.
use ghostmon.Base.{Bool, Option, none, some, List, [], ◌∷◌, if◌then◌else◌}
use ghostmon.Model.Floats.{Floats}
use ghostmon.Model.Monitor.{Monitor, MonitorStatus}
use ghostmon.Notifications.Events.{
  AlertEvent, RoutedAlert, status_alert, trigger_alert, item_trigger_alert,
}

module _ {F : Type 0} where
  abbrev pub status_alerts : List (RoutedAlert F) → List AlertEvent
  status_alerts [] = []
  status_alerts (status_alert e ∷ rest) = e ∷ status_alerts rest
  status_alerts (trigger_alert e ∷ rest) = status_alerts rest
  status_alerts (item_trigger_alert e ∷ rest) = status_alerts rest

-- what a monitor in a status turns to, if it is alerted: an UP monitor goes down when no probe is UP,
-- a DOWN one recovers when one is, and the first probe of a monitor is no change
abbrev pub turns_to : MonitorStatus → Bool → Option MonitorStatus
turns_to MonitorStatus.up any_up = if any_up then none else some MonitorStatus.down
turns_to MonitorStatus.down any_up = if any_up then some MonitorStatus.up else none
turns_to MonitorStatus.pending any_up = none
turns_to MonitorStatus.paused any_up = none

-- the previous and the new status of an alert
abbrev pub change_of : AlertEvent → MonitorStatus × MonitorStatus
change_of e = (e.previous_status, e.new_status)

abbrev pub changes_from :
    MonitorStatus → Option MonitorStatus → List (MonitorStatus × MonitorStatus)
changes_from previous none = []
changes_from previous (some new) = (previous, new) ∷ []
