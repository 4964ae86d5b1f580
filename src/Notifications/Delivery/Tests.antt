-- ===== src/Notifications/Delivery/Tests.antt =====
-- An alert with three channels: one that is signed, one for an internal host, one that cannot be read.
use ghostmon.Base.{
  ◌≡◌, refl, true, false, String, Option, none, some, List, [], ◌∷◌, str_eq, if◌then◌else◌, Memᴰ,
}
use ghostmon.Model.Trigger.{Severity}
use ghostmon.Model.Channel.{NotificationChannel, ChannelType}
use ghostmon.Ssrf.{Address, Egress, target_allowed, host_is_blocked, is_internal_ip}
use ghostmon.Secrets.{Fernet, deliver, post, decrypt_secret, after_prefix}
use ghostmon.Notifications.Delivery.{
  Post, Wire, Answer, refused, signature_of, sign_payload, send_webhook, send_to, deliver_alert,
  deliver_all,
}
use ghostmon.Notifications.Delivery.Posts.{deliver_all-allowed}

abbrev open_fernet : Fernet
open_fernet = record { encrypt = λ n s. s; decrypt = λ t. some t }

-- the address of this server itself
abbrev loopback : Address
loopback = record {
  is_private = true;
  is_loopback = true;
  is_link_local = false;
  is_reserved = false;
  is_multicast = false;
  is_unspecified = false;
}

abbrev policy : Egress
policy = record {
  block_private = true;
  ip_address = λ host. if str_eq host "127.0.0.1" then some loopback else none;
  getaddrinfo = λ host. none;
}

abbrev wire : Wire
wire = record {
  smtp_host = "";
  hmac = λ secret body. secret;
  url_host = λ url. if str_eq url "bad" then none else some url;
  request = λ p. Answer.answered 200;
  transmit = λ m. true;
}

abbrev hook : String → Option String → NotificationChannel
hook url secret = record {
  id = 1;
  name = "hook";
  kind = ChannelType.webhook;
  config = record { to = none; url = some url; secret = secret };
  is_enabled = true;
  min_severity = Severity.info;
  owner_id = 7;
}

abbrev channels : List NotificationChannel
channels = hook "bad" none ∷ hook "127.0.0.1" none ∷ hook "hook.test" (some "enc:v1:key") ∷ []

abbrev signed : Post
signed = record { url = "hook.test"; body = "{}"; signature = some "sha256=key" }

posts_run : (deliver_all policy wire open_fernet "s" "c" "{}" channels).posts ≡ signed ∷ []
unfolding deliver_all deliver_alert send_to send_webhook signature_of sign_payload deliver
    decrypt_secret after_prefix target_allowed host_is_blocked is_internal_ip
posts_run = refl

blocked_run :
    (deliver_alert policy wire open_fernet "s" "c" "{}" (hook "127.0.0.1" none)).0 ≡ refused
unfolding deliver_alert send_to send_webhook deliver decrypt_secret after_prefix target_allowed
    host_is_blocked is_internal_ip
blocked_run = refl

signed-mem : Memᴰ signed (deliver_all policy wire open_fernet "s" "c" "{}" channels).posts
unfolding deliver_all deliver_alert send_to send_webhook signature_of sign_payload deliver
    decrypt_secret after_prefix target_allowed host_is_blocked is_internal_ip
signed-mem = Memᴰ.head refl

deliver_all-allowed_example :
    (c : NotificationChannel) × Memᴰ c channels
    × ((secret : Option String) × (deliver open_fernet c.kind c.config ≡ post "hook.test" secret)
        × (some "sha256=key" ≡ signature_of policy wire secret "{}")
        × (signed.body ≡ "{}")
        × ((host : String) × (wire.url_host "hook.test" ≡ some host)
            × (target_allowed policy host ≡ true)))
deliver_all-allowed_example =
    deliver_all-allowed policy wire open_fernet "s" "c" "{}" channels signed-mem
