-- ===== src/Api/Isolated.antt =====
-- The requests of app/api/routes/monitors.py and hosts.py, and the other users.
use ghostmon.Base.{ℕ, ◌≢◌}
use ghostmon.Model.Host.{Host}
use ghostmon.Api.WellFormed.{create_monitor-IsSite, update_monitor-IsSite, delete_monitor-IsSite}
use ghostmon.Api.Rows.{
  create_host-IsSite, update_host-IsSite, delete_host-IsSite, create_item-IsSite,
  update_item-IsSite, delete_item-IsSite, attach_channel-IsSite, detach_channel-IsSite,
  attach_host_channel-IsSite, detach_host_channel-IsSite,
}
use ghostmon.Secrets.{Fernet}
use ghostmon.Api.{Site}
use ghostmon.Api.Requests.{
  Request, create_monitor, update_monitor, delete_monitor, attach_channel, detach_channel,
  create_host, update_host, delete_host, create_item, update_item, delete_item, attach_host_channel,
  detach_host_channel, handle,
}
use ghostmon.Api.Untouched.{
  Untouched, IsSite, create_monitor-Untouched, update_monitor-Untouched, delete_monitor-Untouched,
  attach_channel-Untouched, detach_channel-Untouched,
}
use ghostmon.Api.Foreign.{
  create_host-Untouched, update_host-Untouched, delete_host-Untouched, create_item-Untouched,
  update_item-Untouched, delete_item-Untouched, attach_host_channel-Untouched,
  detach_host_channel-Untouched,
}

-- One request of a user leaves the rows of another owner.
pub handle-Untouched :
    {F : Type 0} (f : Fernet) (o user : ℕ) (r : Request) (s : Site F)
    → user ≢ o
    → IsSite s
    → Untouched o s (handle f user r s).1
unfolding handle
handle-Untouched f o u (create_monitor payload) s apart w =
    create_monitor-Untouched o u apart payload s
handle-Untouched f o u (update_monitor k payload) s apart w =
    update_monitor-Untouched o u apart k payload s w
handle-Untouched f o u (delete_monitor k) s apart w = delete_monitor-Untouched o u apart k s w
handle-Untouched f o u (attach_channel k c) s apart w = attach_channel-Untouched o u apart k c s
handle-Untouched f o u (detach_channel k c) s apart w = detach_channel-Untouched o u apart k c s
handle-Untouched f o u (create_host payload) s apart w = create_host-Untouched o u apart s w payload
handle-Untouched f o u (update_host k payload) s apart w =
    update_host-Untouched o u apart s w k payload
handle-Untouched f o u (delete_host k) s apart w = delete_host-Untouched o u apart s w k
handle-Untouched f o u (create_item k payload) s apart w =
    create_item-Untouched o u apart s w f k payload
handle-Untouched f o u (update_item k j payload) s apart w =
    update_item-Untouched o u apart s w f k j payload
handle-Untouched f o u (delete_item k j) s apart w = delete_item-Untouched o u apart s w k j
handle-Untouched f o u (attach_host_channel k c) s apart w =
    attach_host_channel-Untouched o u apart s w k c
handle-Untouched f o u (detach_host_channel k c) s apart w =
    detach_host_channel-Untouched o u apart s w k c

-- Such a request keeps the primary keys distinct, the next id new, and every host behind a monitor with the
-- monitor's owner.
pub handle-IsSite :
    {F : Type 0} (f : Fernet) (user : ℕ) (r : Request) (s : Site F)
    → IsSite s
    → IsSite (handle f user r s).1
unfolding handle
handle-IsSite f u (create_monitor payload) s w = create_monitor-IsSite u payload s w
handle-IsSite f u (update_monitor k payload) s w = update_monitor-IsSite u k payload s w
handle-IsSite f u (delete_monitor k) s w = delete_monitor-IsSite u k s w
handle-IsSite f u (attach_channel k c) s w = attach_channel-IsSite u k c s w
handle-IsSite f u (detach_channel k c) s w = detach_channel-IsSite u k c s w
handle-IsSite f u (create_host payload) s w = create_host-IsSite u payload s w
handle-IsSite f u (update_host k payload) s w = update_host-IsSite u k payload s w
handle-IsSite f u (delete_host k) s w = delete_host-IsSite u k s w
handle-IsSite f u (create_item k payload) s w = create_item-IsSite f u k payload s w
handle-IsSite f u (update_item k j payload) s w = update_item-IsSite f u k j payload s w
handle-IsSite f u (delete_item k j) s w = delete_item-IsSite u k j s w
handle-IsSite f u (attach_host_channel k c) s w = attach_host_channel-IsSite u k c s w
handle-IsSite f u (detach_host_channel k c) s w = detach_host_channel-IsSite u k c s w
