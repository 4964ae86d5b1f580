-- ===== src/Api/Monitors.antt =====
-- app/core/services/monitor_service.py and app/api/routes/monitors.py
use ghostmon.Base.{
  ℕ, suc, ◌&&◌, String, Option, none, some, List, [], ◌∷◌, ◌++◌, map, ◌==◌, if◌then◌else◌, find,
  Result, ok, raised, set_required, ◌>>=◌,
}
use ghostmon.Model.Monitor.{Monitor, MonitorStatus, MonitorType}
use ghostmon.Model.Host.{Host}
use ghostmon.Api.{
  Site, Reply, done, not_found, failed, remove_monitor, remove_host, link_channel, unlink_channel,
  get_channel,
}

unfoldable pub get_monitor : ℕ → ℕ → List Monitor → Option Monitor
get_monitor monitor_id owner_id =
    find (λ (m : Monitor). m.id == monitor_id && m.owner_id == owner_id)

pub record MonitorCreate : Type 0 where
  pub name : String
  pub kind : MonitorType  -- `type`
  pub url : String
  pub interval : ℕ
  pub retries : ℕ
  pub retry_interval : ℕ

-- a PATCH: `none` is a field that is not set, and `some none` a null
pub record MonitorUpdate : Type 0 where
  pub name : Option (Option String)
  pub kind : Option (Option MonitorType)  -- `type`
  pub url : Option (Option String)
  pub interval : Option (Option ℕ)
  pub retries : Option (Option ℕ)
  pub retry_interval : Option (Option ℕ)
  pub status : Option (Option MonitorStatus)

-- a new row is PENDING and has no host
unfoldable pub new_monitor : ℕ → MonitorCreate → ℕ → Monitor
new_monitor id payload owner_id = record {
  id = id;
  name = payload.name;
  kind = payload.kind;
  url = payload.url;
  interval = payload.interval;
  retries = payload.retries;
  retry_interval = payload.retry_interval;
  status = MonitorStatus.pending;
  owner_id = owner_id;
  host_id = none;
}

-- the columns of the row after an update
unfoldable pub updated_monitor : Monitor → MonitorUpdate → Result Monitor
updated_monitor m payload = do
  name ← set_required payload.name m.name
  kind ← set_required payload.kind m.kind
  url ← set_required payload.url m.url
  interval ← set_required payload.interval m.interval
  retries ← set_required payload.retries m.retries
  retry_interval ← set_required payload.retry_interval m.retry_interval
  status ← set_required payload.status m.status
  ok (record m {
    name = name;
    kind = kind;
    url = url;
    interval = interval;
    retries = retries;
    retry_interval = retry_interval;
    status = status;
  })

module _ {F : Type 0} where
  unfoldable pub create_monitor : ℕ → MonitorCreate → Site F → Reply × Site F
  unfolding new_monitor
  create_monitor user payload s = (
    done,
    record s {
      monitors = s.monitors ++ new_monitor s.next_id payload user ∷ [];
      next_id = suc s.next_id;
    },
  )

  -- the UPDATE of the row, or the rollback
  unfoldable pub store_monitor : Result Monitor → Site F → Reply × Site F
  store_monitor (raised e) s = (failed, s)
  store_monitor (ok new) s = (
    done,
    record s { monitors = map (λ (m : Monitor). if m.id == new.id then new else m) s.monitors },
  )

  unfoldable pub update_monitor : ℕ → ℕ → MonitorUpdate → Site F → Reply × Site F
  unfolding get_monitor updated_monitor store_monitor
  update_monitor user monitor_id payload s = elim (get_monitor monitor_id user s.monitors) [
    | none ↦ (not_found, s)
    | some m ↦ store_monitor (updated_monitor m payload) s
  ]

  -- `delete` of the service: the backing host goes too, if it is there
  unfoldable pub delete_backing_host : Option ℕ → Site F → Site F
  unfolding remove_host
  delete_backing_host none s = s
  delete_backing_host (some host_id) s = elim (find (λ (h : Host). h.id == host_id) s.hosts) [
    | none ↦ s
    | some h ↦ remove_host host_id s
  ]

  unfoldable pub delete_monitor : ℕ → ℕ → Site F → Reply × Site F
  unfolding get_monitor remove_monitor delete_backing_host
  delete_monitor user monitor_id s = elim (get_monitor monitor_id user s.monitors) [
    | none ↦ (not_found, s)
    | some m ↦ (done, delete_backing_host m.host_id (remove_monitor monitor_id s))
  ]

  unfoldable pub attach_channel : ℕ → ℕ → ℕ → Site F → Reply × Site F
  unfolding get_monitor get_channel link_channel
  attach_channel user monitor_id channel_id s = elim (get_monitor monitor_id user s.monitors) [
    | none ↦ (not_found, s)
    | some m ↦ elim (get_channel channel_id user s.channels) [
      | none ↦ (not_found, s)
      | some c ↦ (
        done,
        record s { monitor_channels = link_channel monitor_id channel_id s.monitor_channels },
      )
    ]
  ]

  unfoldable pub detach_channel : ℕ → ℕ → ℕ → Site F → Reply × Site F
  unfolding get_monitor get_channel unlink_channel
  detach_channel user monitor_id channel_id s = elim (get_monitor monitor_id user s.monitors) [
    | none ↦ (not_found, s)
    | some m ↦ elim (get_channel channel_id user s.channels) [
      | none ↦ (not_found, s)
      | some c ↦ (
        done,
        record s { monitor_channels = unlink_channel monitor_id channel_id s.monitor_channels },
      )
    ]
  ]
