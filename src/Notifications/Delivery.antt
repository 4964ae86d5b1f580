-- ===== src/Notifications/Delivery.antt =====
-- app/tasks/notifications/delivery.py and `_deliver` of app/tasks/notifications/dispatcher.py: what one
-- alert sends.
pub mod Posts
mod Tests
use Prim.Native.String.{◌++◌ as str_append}
use ghostmon.Base.{
  ℕ, Bool, true, false, not, String, Option, none, some, List, [], ◌∷◌, ◌++◌, leb, str_eq,
  if◌then◌else◌, concat_map,
}
use ghostmon.Model.Channel.{NotificationChannel, ChannelType}
use ghostmon.Ssrf.{Egress, target_allowed}
use ghostmon.Secrets.{Fernet, Sent, deliver, mail, post, delivery_error}

-- a request to a webhook: its body, and the signature in its header
pub record Post : Type 0 where
  pub url : String
  pub body : String
  pub signature : Option String

pub record Mail : Type 0 where
  pub to : String
  pub subject : String
  pub content : String

-- what httpx and aiosmtplib end with; `failed` is an error of theirs, a timeout included
pub data Answer : Type 0 where
  answered : ℕ → Answer
  failed : Answer

-- The mail server of the settings, HMAC-SHA256 in hexadecimal form, the host of an `httpx.URL` (none:
-- InvalidURL), and what is sent over the network.
pub record Wire : Type 0 where
  pub smtp_host : String
  pub hmac : String → String → String
  pub url_host : String → Option String
  pub request : Post → Answer
  pub transmit : Mail → Bool

-- how a delivery ends: well, with a DeliveryError, or with another exception
pub data Outcome : Type 0 where
  delivered refused crashed : Outcome

-- what has left the server
pub record Traffic : Type 0 where
  pub posts : List Post
  pub mails : List Mail

abbrev pub silence : Traffic
silence = record { posts = []; mails = [] }

module _ (e : Egress) (w : Wire) where
  unfoldable pub sign_payload : String → String → String
  sign_payload secret body = str_append "sha256=" (w.hmac secret body)

  unfoldable pub signature_of : Option String → String → Option String
  unfolding sign_payload
  signature_of none body = none
  signature_of (some secret) body =
      if str_eq secret "" then none else some (sign_payload secret body)

  unfoldable pub outcome_of : Answer → Outcome
  outcome_of failed = refused
  outcome_of (answered status) = if leb 400 status then refused else delivered

  unfoldable pub send_webhook : String → String → Option String → Outcome × Traffic
  unfolding signature_of outcome_of
  send_webhook url body secret = elim (w.url_host url) [
    | none ↦ (crashed, silence)
    | some host ↦
        let sent : Post = record { url = url; body = body; signature = signature_of secret body } in
        if target_allowed e host
        then (outcome_of (w.request sent), record silence { posts = sent ∷ [] })
        else (refused, silence)
  ]

  unfoldable pub send_email : String → String → String → Outcome × Traffic
  send_email to subject content =
      let message : Mail = record { to = to; subject = subject; content = content } in
      if str_eq w.smtp_host "" then (refused, silence) else (
        if w.transmit message then delivered else refused,
        record silence { mails = message ∷ [] },
      )

  -- an alert as it is written: `_format_email`, and the JSON of its payload
  module _ (f : Fernet) (subject content payload : String) where
    unfoldable pub send_to : Sent → Outcome × Traffic
    unfolding send_webhook send_email
    send_to (mail to) = send_email to subject content
    send_to (post url secret) = send_webhook url payload secret
    send_to delivery_error = (refused, silence)

    unfoldable pub deliver_alert : NotificationChannel → Outcome × Traffic
    unfolding send_to
    deliver_alert channel = send_to (deliver f channel.kind channel.config)

    -- the `gather` of `dispatch_alert`: no exception stops the other deliveries
    unfoldable pub deliver_all : List NotificationChannel → Traffic
    unfolding deliver_alert
    deliver_all channels = record {
      posts = concat_map (λ c. (deliver_alert c).1.posts) channels;
      mails = concat_map (λ c. (deliver_alert c).1.mails) channels;
    }
