-- ===== src/Notifications/Delivery/Posts.antt =====
-- The webhooks that an alert calls: which channel each is for, its signature, and the egress policy.
use ghostmon.Base.{
  ◌≡◌, refl, true, String, Option, some, List, [], ◌∷◌, str_eq, All, All-append, All-weaken, All-at,
  Memᴰ, Bool-cases, Option-cases, inl, inr,
}
use ghostmon.Model.Channel.{NotificationChannel}
use ghostmon.Ssrf.{Egress, target_allowed}
use ghostmon.Secrets.{Fernet, Sent, deliver, mail, post, delivery_error}
use ghostmon.Notifications.Delivery.{
  Post, Wire, signature_of, send_webhook, send_email, send_to, deliver_alert, deliver_all,
}

module _ (e : Egress) (w : Wire) where
  -- a post with the payload to a target that the policy allows, signed with the secret of `sent`
  abbrev pub Calls : String → Sent → Post → Type 0
  Calls payload sent p =
      (secret : Option String) × (sent ≡ post p.url secret)
      × (p.signature ≡ signature_of e w secret payload)
      × (p.body ≡ payload)
      × ((host : String) × (w.url_host p.url ≡ some host) × (target_allowed e host ≡ true))

  send_webhook-Calls :
      (url payload : String) (secret : Option String)
      → All (Calls payload (post url secret)) (send_webhook e w url payload secret).1.posts
  unfolding send_webhook
  send_webhook-Calls url payload secret = elim (Option-cases (w.url_host url)) [
    | inl none_e ↦ rw (send_webhook, none_e) tt
    | inr (host, host_e) ↦ elim (Bool-cases (target_allowed e host)) [
      | inr blocked ↦ rw (send_webhook, host_e, blocked) tt
      | inl allowed ↦
          rw (send_webhook, host_e, allowed)
            ((secret, refl, refl, refl, (host, host_e, allowed)), tt)
    ]
  ]

  send_email-silent :
      (payload to subject content : String)
      → All (Calls payload (mail to)) (send_email e w to subject content).1.posts
  unfolding send_email
  send_email-silent payload to subject content = elim (Bool-cases (str_eq w.smtp_host "")) [
    | inl off ↦ rw (send_email, off) tt
    | inr on ↦ rw (send_email, on) tt
  ]

  module _ (f : Fernet) (subject content payload : String) where
    send_to-Calls :
        (sent : Sent)
        → All (Calls payload sent) (send_to e w f subject content payload sent).1.posts
    unfolding send_to
    send_to-Calls (mail to) = send_email-silent payload to subject content
    send_to-Calls (post url secret) = send_webhook-Calls url payload secret
    send_to-Calls delivery_error = tt

    -- a post for one of the channels
    abbrev pub CallsOne : List NotificationChannel → Post → Type 0
    CallsOne channels p =
        (c : NotificationChannel) × Memᴰ c channels × Calls payload (deliver f c.kind c.config) p

    deliver_all-All :
        (channels : List NotificationChannel)
        → All (CallsOne channels) (deliver_all e w f subject content payload channels).posts
    unfolding deliver_all deliver_alert
    deliver_all-All [] = tt
    deliver_all-All (c ∷ rest) =
        All-append (CallsOne (c ∷ rest)) (deliver_alert e w f subject content payload c).1.posts
          (deliver_all e w f subject content payload rest).posts
          (All-weaken (Calls payload (deliver f c.kind c.config)) (CallsOne (c ∷ rest))
            (λ p h. (c, Memᴰ.head refl, h)) (deliver_alert e w f subject content payload c).1.posts
            (send_to-Calls (deliver f c.kind c.config)))
          (All-weaken (CallsOne rest) (CallsOne (c ∷ rest)) (λ p h. (h.0, Memᴰ.tail h.1, h.2))
            (deliver_all e w f subject content payload rest).posts (deliver_all-All rest))

    -- Each webhook that an alert calls is that of one of the channels it is delivered to: the payload is
    -- posted to the decrypted URL of the channel, signed with its decrypted secret if it has one, and
    -- only where the host of that URL is one that the egress policy allows.
    pub deliver_all-allowed :
        (channels : List NotificationChannel) {p : Post}
        → Memᴰ p (deliver_all e w f subject content payload channels).posts
        → (c : NotificationChannel) × Memᴰ c channels
          × ((secret : Option String) × (deliver f c.kind c.config ≡ post p.url secret)
              × (p.signature ≡ signature_of e w secret payload)
              × (p.body ≡ payload)
              × ((host : String) × (w.url_host p.url ≡ some host) × (target_allowed e host ≡ true)))
    deliver_all-allowed channels m =
        All-at (CallsOne channels) (deliver_all e w f subject content payload channels).posts
          (deliver_all-All channels) m
