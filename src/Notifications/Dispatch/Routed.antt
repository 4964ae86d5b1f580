-- ===== src/Notifications/Dispatch/Routed.antt =====
-- Which channels `dispatch_alert` of app/tasks/notifications/dispatcher.py delivers to.
use ghostmon.Base.{
  ℕ, ◌≤◌, ◌≡◌, ◌↔◌, refl, Bool, true, false, ◌&&◌, Option, none, some, List, [], ◌∷◌, Memᴰ, arith,
  leb, filterb, Bool-cases, inl, inr, filterb-mem, sym, subst,
}
use ghostmon.Model.Trigger.{Severity, info, high, rank}
use ghostmon.Model.Channel.{NotificationChannel}
use ghostmon.Notifications.Events.{AlertEvent, status_alert, severity_of, severity, is_recovery}
use ghostmon.Notifications.Dispatch.{
  Directory, links_channel, owned_by, linked_channels, monitor_owner, channels_for_monitor, hears,
  candidates, dispatch_alert,
}

module _ {ℓ} {A : Type ℓ} where
  mem-filterb :
      (p : A → Bool) (xs : List A) {x : A} → Memᴰ x (filterb p xs) → Memᴰ x xs × (p x ≡ true)
  mem-filterb p [] m = elim m [ ]
  mem-filterb p (y ∷ ys) {x} m = elim (Bool-cases (p y)) [
    | inr e ↦ let (on, h) = mem-filterb p ys {x = x} (rw e at m) in (Memᴰ.tail on, h)
    | inl e ↦ elim (rw e at m) [
      | Memᴰ.head same ↦ (Memᴰ.head same, subst (λ z. p z ≡ true) (sym same) e)
      | Memᴰ.tail later ↦ let (on, h) = mem-filterb p ys {x = x} later in (Memᴰ.tail on, h)
    ]
  ]

  -- selecting by one test, and by another that implies it
  filterb-both :
      (p q r : A → Bool) (xs : List A)
      → ((x : A) → p x ≡ (q x && r x))
      → filterb p xs ≡ filterb q (filterb r xs)
  filterb-both p q r [] h = refl
  filterb-both p q r (x ∷ xs) h = ground (arith, h x, filterb-both p q r xs h)

-- the channel is linked to the monitor and switched on, the monitor is there and of the same owner,
-- and the alert is as severe as the channel asks for
abbrev pub Receives : Directory → AlertEvent → NotificationChannel → Type 0
Receives db e c =
    (links_channel db.monitor_channels e.monitor_id c ≡ true)
    × (c.is_enabled ≡ true)
    × (monitor_owner db.monitors e.monitor_id ≡ some c.owner_id)
    × (rank c.min_severity ≤ rank (severity e))

owner-owned :
    (o : Option ℕ) (c : NotificationChannel) → (owned_by o c ≡ true) ↔ (o ≡ some c.owner_id)
owner-owned none c = ((λ h. ground arith), (λ h. ground arith))
owner-owned (some k) c = ((λ h. ground (arith, h)), (λ h. ground (arith, h)))

rank_info :
    (s : Severity)
    → leb (rank s) (rank info) ≡ (leb (rank s) (rank info) && leb (rank s) (rank high))
unfolding rank
rank_info Severity.info = refl
rank_info Severity.warning = refl
rank_info Severity.average = refl
rank_info Severity.high = refl
rank_info Severity.disaster = refl

module _ (F : Type 0) where
  -- An alert of a monitor's status is delivered to exactly those channels that are linked to the monitor
  -- and enabled, belong to the owner of the monitor, and whose threshold is not above the severity of
  -- the alert.
  pub dispatch-Receives :
      (db : Directory) (e : AlertEvent) (c : NotificationChannel)
      → Memᴰ c db.channels
      → Memᴰ c (dispatch_alert {F = F} db (status_alert e)) ↔ Receives db e c
  unfolding dispatch_alert candidates channels_for_monitor linked_channels severity_of
  dispatch-Receives db e c there = (
    (λ m.
        let (linked, loud) = mem-filterb (hears (severity e)) _ m in
        let (known, fits) = mem-filterb _ db.channels linked in
        (
          ground (arith, fits),
          ground (arith, fits),
          (owner-owned (monitor_owner db.monitors e.monitor_id) c).0 (ground (arith, fits)),
          ground (arith, loud),
        )),
    (λ r.
        let mine = (owner-owned (monitor_owner db.monitors e.monitor_id) c).1 r.2 in
        filterb-mem (hears (severity e)) _
          (filterb-mem _ db.channels there (ground (arith, r.0, r.1, mine))) (ground (arith, r.3))),
  )

  -- The channels that hear that a monitor recovered are those that heard that it went down and whose
  -- threshold is the lowest: a channel with a threshold above it never hears of the recovery.
  pub recovery_heard :
      (db : Directory) (up down : AlertEvent)
      → up.monitor_id ≡ down.monitor_id
      → is_recovery up ≡ true
      → is_recovery down ≡ false
      → dispatch_alert {F = F} db (status_alert up)
        ≡ filterb (hears info) (dispatch_alert {F = F} db (status_alert down))
  unfolding dispatch_alert candidates severity_of severity
  recovery_heard db up down same recovered failed =
      rw (same, recovered, failed)
        (filterb-both (hears info) (hears info) (hears high)
          (channels_for_monitor db down.monitor_id) (λ c. rank_info c.min_severity))
