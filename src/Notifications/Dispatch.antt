-- ===== src/Notifications/Dispatch.antt =====
-- `dispatch_alert` of app/tasks/notifications/dispatcher.py: the channels that an alert goes to.
pub mod Routed
mod Tests
use ghostmon.Base.{
  ℕ, Bool, true, false, ◌&&◌, String, Option, none, some, List, [], ◌∷◌, map, leb, ◌==◌,
  if◌then◌else◌, filterb, find, is_some,
}
use ghostmon.Model.Trigger.{Severity, rank}
use ghostmon.Model.Monitor.{Monitor}
use ghostmon.Model.Host.{Host}
use ghostmon.Model.Channel.{NotificationChannel, ChannelLink}
use ghostmon.Triggers.{ItemTriggerFired}
use ghostmon.Notifications.Events.{
  RoutedAlert, status_alert, trigger_alert, item_trigger_alert, severity_of, ItemTriggerAlertEvent,
}

-- The tables that routing reads.
pub record Directory : Type 0 where
  pub monitors : List Monitor
  pub hosts : List Host
  pub channels : List NotificationChannel
  pub monitor_channels : List ChannelLink
  pub host_channels : List ChannelLink

unfoldable pub links_channel : List ChannelLink → ℕ → NotificationChannel → Bool
links_channel links target_id c =
    is_some (find (λ (l : ChannelLink). l.target_id == target_id && l.channel_id == c.id) links)

-- The two queries differ in the link table and in the owner of the target, if the target is there.
abbrev pub owned_by : Option ℕ → NotificationChannel → Bool
owned_by none c = false
owned_by (some owner_id) c = c.owner_id == owner_id

unfoldable pub linked_channels :
    List ChannelLink → ℕ → Option ℕ → List NotificationChannel → List NotificationChannel
linked_channels links target_id owner channels =
    filterb (λ c. links_channel links target_id c && c.is_enabled && owned_by owner c) channels

unfoldable pub monitor_owner : List Monitor → ℕ → Option ℕ
monitor_owner monitors i = elim (find (λ (m : Monitor). m.id == i) monitors) [
  | none ↦ none
  | some m ↦ some m.owner_id
]

unfoldable pub host_owner : List Host → ℕ → Option ℕ
host_owner hosts i = elim (find (λ (h : Host). h.id == i) hosts) [
  | none ↦ none
  | some h ↦ some h.owner_id
]

unfoldable pub channels_for_monitor : Directory → ℕ → List NotificationChannel
unfolding linked_channels
channels_for_monitor db i =
    linked_channels db.monitor_channels i (monitor_owner db.monitors i) db.channels

unfoldable pub channels_for_host : Directory → ℕ → List NotificationChannel
unfolding linked_channels
channels_for_host db i = linked_channels db.host_channels i (host_owner db.hosts i) db.channels

abbrev pub hears : Severity → NotificationChannel → Bool
hears severity c = leb (rank c.min_severity) (rank severity)

module _ {F : Type 0} where
  unfoldable pub candidates : Directory → RoutedAlert F → List NotificationChannel
  unfolding channels_for_monitor channels_for_host
  candidates db (status_alert e) = channels_for_monitor db e.monitor_id
  candidates db (trigger_alert e) = channels_for_monitor db e.monitor_id
  candidates db (item_trigger_alert e) = channels_for_host db e.host_id

  -- the channels that the alert is delivered to, each once
  unfoldable pub dispatch_alert : Directory → RoutedAlert F → List NotificationChannel
  unfolding candidates
  dispatch_alert db event = filterb (hears (severity_of event)) (candidates db event)

  -- `schedule_item_trigger_alerts`: the events that are dispatched
  unfoldable pub item_trigger_alerts : List (ItemTriggerFired F) → ℕ → List (RoutedAlert F)
  item_trigger_alerts fired timestamp =
      map
        (λ (f : ItemTriggerFired F). item_trigger_alert (record {
          host_id = f.host_id;
          host_name = f.host_name;
          item_key = f.item_key;
          item_name = f.item_name;
          trigger_name = f.trigger_name;
          severity = f.severity;
          operator = f.operator;
          threshold = f.threshold;
          value = f.value;
          new_state = f.new_state;
          timestamp = timestamp;
        }))
        fired
