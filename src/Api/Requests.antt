-- ===== src/Api/Requests.antt =====
-- The routes of app/api/routes/monitors.py and hosts.py that change the tables, as requests of a user.
use ghostmon.Base.{ℕ, List, [], ◌∷◌}
use ghostmon.Secrets.{Fernet}
use ghostmon.Hosts.{ItemCreate}
use ghostmon.Api.{Site, Reply}
use ghostmon.Api.Monitors
use ghostmon.Api.Monitors.{MonitorCreate, MonitorUpdate}
use ghostmon.Api.Hosts
use ghostmon.Api.Hosts.{HostCreate, HostUpdate, ItemUpdate}

pub data Request : Type 0 where
  create_monitor : MonitorCreate → Request
  update_monitor : ℕ → MonitorUpdate → Request
  delete_monitor : ℕ → Request
  attach_channel detach_channel : ℕ → ℕ → Request
  create_host : HostCreate → Request
  update_host : ℕ → HostUpdate → Request
  delete_host : ℕ → Request
  create_item : ℕ → ItemCreate → Request
  update_item : ℕ → ℕ → ItemUpdate → Request
  delete_item : ℕ → ℕ → Request
  attach_host_channel detach_host_channel : ℕ → ℕ → Request

unfoldable pub handle : {F : Type 0} → Fernet → ℕ → Request → Site F → Reply × Site F
unfolding Monitors.create_monitor Monitors.update_monitor Monitors.delete_monitor
    Monitors.attach_channel Monitors.detach_channel Hosts.create_host Hosts.update_host
    Hosts.delete_host Hosts.create_host_item Hosts.update_item Hosts.delete_item
    Hosts.attach_host_channel Hosts.detach_host_channel
handle f user (create_monitor payload) s = Monitors.create_monitor user payload s
handle f user (update_monitor m payload) s = Monitors.update_monitor user m payload s
handle f user (delete_monitor m) s = Monitors.delete_monitor user m s
handle f user (attach_channel m c) s = Monitors.attach_channel user m c s
handle f user (detach_channel m c) s = Monitors.detach_channel user m c s
handle f user (create_host payload) s = Hosts.create_host user payload s
handle f user (update_host h payload) s = Hosts.update_host user h payload s
handle f user (delete_host h) s = Hosts.delete_host user h s
handle f user (create_item h payload) s = Hosts.create_host_item f user h payload s
handle f user (update_item h i payload) s = Hosts.update_item f user h i payload s
handle f user (delete_item h i) s = Hosts.delete_item user h i s
handle f user (attach_host_channel h c) s = Hosts.attach_host_channel user h c s
handle f user (detach_host_channel h c) s = Hosts.detach_host_channel user h c s

-- requests one after the other, each of its user
unfoldable pub run : {F : Type 0} → Fernet → List (ℕ × Request) → Site F → Site F
unfolding handle
run f [] s = s
run f ((user, r) ∷ rest) s = run f rest (handle f user r s).1
