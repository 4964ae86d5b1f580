-- ===== src/Api.antt =====
-- The tables behind app/api/routes, and what the foreign keys of app/core/models delete with a row.
pub mod Monitors
pub mod Hosts
pub mod Requests
pub mod Lists
pub mod Untouched
pub mod Kept
pub mod WellFormed
pub mod Rows
pub mod Foreign
pub mod Isolated
mod Tests
use ghostmon.Base.{
  ℕ, suc, Bool, true, false, ◌&&◌, not, Option, none, some, List, [], ◌∷◌, ◌++◌, map, ◌==◌,
  if◌then◌else◌, filterb, elem, is_some, find,
}
use ghostmon.Model.Monitor.{Monitor, MonitorResult}
use ghostmon.Model.Host.{Host, Item, MetricValue}
use ghostmon.Model.Trigger.{Trigger}
use ghostmon.Model.Problem.{ProblemEvent}
use ghostmon.Model.Channel.{NotificationChannel, ChannelLink}
use ghostmon.Model.Maintenance.{MaintenanceLink}
use ghostmon.Trends.{MetricTrend}

pub record Site (F : Type 0) : Type 0 where
  pub monitors : List Monitor
  pub results : List MonitorResult
  pub hosts : List Host
  pub items : List Item
  pub values : List (MetricValue F)
  pub trends : List (MetricTrend F)
  pub triggers : List (Trigger F)
  pub events : List (ProblemEvent F)
  pub channels : List NotificationChannel
  pub monitor_channels : List ChannelLink
  pub host_channels : List ChannelLink
  pub maintenance_links : List MaintenanceLink
  pub next_id : ℕ

-- The answers: 200 to 204, 404, and 500 for an exception that no route catches.
pub data Reply : Type 0 where
  done not_found failed : Reply

-- `k` is one of the ids, and not NULL
abbrev pub refers : Option ℕ → List ℕ → Bool
refers none ids = false
refers (some k) ids = elem k ids

-- a key that a deleted row leaves NULL
abbrev pub unset : ℕ → Option ℕ → Option ℕ
unset k none = none
unset k (some j) = if j == k then none else some j

module _ {F : Type 0} where
  -- triggers, with their problem events
  unfoldable pub remove_triggers : (Trigger F → Bool) → Site F → Site F
  remove_triggers gone s =
      let ids = map (λ (t : Trigger F). t.id) (filterb gone s.triggers) in
      record s {
        triggers = filterb (λ t. not (gone t)) s.triggers;
        events = filterb (λ (e : ProblemEvent F). not (elem e.trigger_id ids)) s.events;
      }

  -- items, with their samples, trends and triggers
  unfoldable pub remove_items : (Item → Bool) → Site F → Site F
  unfolding remove_triggers
  remove_items gone s =
      let ids = map (λ (i : Item). i.id) (filterb gone s.items) in
      remove_triggers (λ (t : Trigger F). refers t.item_id ids)
        (record s {
          items = filterb (λ i. not (gone i)) s.items;
          values = filterb (λ (v : MetricValue F). not (elem v.item_id ids)) s.values;
          trends = filterb (λ (v : MetricTrend F). not (elem v.item_id ids)) s.trends;
        })

  -- a host, with its items and links; a monitor that it backs loses it
  unfoldable pub remove_host : ℕ → Site F → Site F
  unfolding remove_items
  remove_host host_id s =
      remove_items (λ (i : Item). i.host_id == host_id)
        (record s {
          hosts = filterb (λ (h : Host). not (h.id == host_id)) s.hosts;
          host_channels =
              filterb (λ (l : ChannelLink). not (l.target_id == host_id)) s.host_channels;
          monitors =
              map (λ (m : Monitor). record m { host_id = unset host_id m.host_id }) s.monitors;
        })

  -- a monitor, with its results, links and triggers
  unfoldable pub remove_monitor : ℕ → Site F → Site F
  unfolding remove_triggers
  remove_monitor monitor_id s =
      remove_triggers (λ (t : Trigger F). refers t.monitor_id (monitor_id ∷ []))
        (record s {
          monitors = filterb (λ (m : Monitor). not (m.id == monitor_id)) s.monitors;
          results = filterb (λ (r : MonitorResult). not (r.monitor_id == monitor_id)) s.results;
          monitor_channels =
              filterb (λ (l : ChannelLink). not (l.target_id == monitor_id)) s.monitor_channels;
          maintenance_links =
              filterb (λ (l : MaintenanceLink). not (l.monitor_id == monitor_id))
                s.maintenance_links;
        })

-- INSERT … ON CONFLICT DO NOTHING of a link, and its DELETE
unfoldable pub link_channel : ℕ → ℕ → List ChannelLink → List ChannelLink
link_channel target_id channel_id links =
    if is_some
      (find (λ (l : ChannelLink). l.target_id == target_id && l.channel_id == channel_id) links)
    then links
    else links ++ record { target_id = target_id; channel_id = channel_id } ∷ []

unfoldable pub unlink_channel : ℕ → ℕ → List ChannelLink → List ChannelLink
unlink_channel target_id channel_id =
    filterb (λ (l : ChannelLink). not (l.target_id == target_id && l.channel_id == channel_id))

unfoldable pub get_channel : ℕ → ℕ → List NotificationChannel → Option NotificationChannel
get_channel channel_id owner_id =
    find (λ (c : NotificationChannel). c.id == channel_id && c.owner_id == owner_id)
