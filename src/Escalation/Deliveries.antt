-- ===== src/Escalation/Deliveries.antt =====
-- What `due_escalations` delivers for one problem.
use mathlib.Core.List.{Memᴰ}
use ghostmon.Base.{
  ℕ, ◌+◌, ◌≤◌, ◌<◌, ◌≡◌, refl, true, ◌&&◌, ◌||◌, Option, none, some, List, [], ◌∷◌, ◌++◌, arith,
  ◌==◌, is_some, not, find, minutes, All, All-append, All-weaken, Bool-cases, inl, inr,
}
use ghostmon.Model.Problem.{ProblemEvent}
use ghostmon.Model.Channel.{NotificationChannel}
use ghostmon.Model.Escalation.{EscalationStep}
use ghostmon.Escalation.Climb.{Climbs, stop, skip, wait, execute}
use ghostmon.Escalation.{
  Delivery, step_channel, deliver_to, deliver_step, is_webhook, escalation_event,
}

find_channel :
    (k : ℕ) (cs : List NotificationChannel) {c : NotificationChannel}
    → find (λ (x : NotificationChannel). x.id == k) cs ≡ some c
    → c.id ≡ k
find_channel k [] h = cc
find_channel k (x ∷ xs) {c} h = ground (arith, find_channel k xs {c = c})

module _ {F : Type 0} where
  -- The step orders rise strictly, from above `lo` and up to `hi`.
  abbrev pub Rising : ℕ → ℕ → List (Delivery F) → Type 0
  Rising lo hi [] = lo ≤ hi
  Rising lo hi ((event, channel) ∷ ds) = (lo < event.step_order) × Rising event.step_order hi ds

  Rising-lower : (a lo hi : ℕ) (ds : List (Delivery F)) → a ≤ lo → Rising lo hi ds → Rising a hi ds
  Rising-lower a lo hi [] h r = omega arith
  Rising-lower a lo hi ((event, channel) ∷ ds) h r = (omega arith, r.1)

  pub Rising-le : (lo hi : ℕ) (ds : List (Delivery F)) → Rising lo hi ds → lo ≤ hi
  Rising-le lo hi [] r = r
  Rising-le lo hi ((event, channel) ∷ ds) r =
      omega (arith, r.0, Rising-le event.step_order hi ds r.1)

module _ {F : Type 0} (channels : List NotificationChannel) (now : ℕ) where
  -- A delivery is for the problem, by a step of the ladder that is due and was not executed before,
  -- to the step's channel, which is enabled, of the problem's owner, and a webhook for a remediation.
  pub record Sound (p : ProblemEvent F) (steps : List EscalationStep) (d : Delivery F)
      : Type 0 where
    pub step : EscalationStep
    pub on_ladder : Memᴰ step steps
    pub event : d.0 ≡ escalation_event now p step
    pub unexecuted : p.escalated_step < step.step_order
    pub due : p.started_at + minutes step.delay_minutes ≤ now
    pub target : d.1.id ≡ step.channel_id
    pub enabled : d.1.is_enabled ≡ true
    pub owned : d.1.owner_id ≡ p.owner_id
    pub machine : (not (is_some step.action_command) || is_webhook d.1.kind) ≡ true

  Rising-deliver_step :
      (p : ProblemEvent F) (s : EscalationStep) (hi : ℕ) (ds : List (Delivery F))
      → p.escalated_step < s.step_order
      → Rising s.step_order hi ds
      → Rising p.escalated_step hi (deliver_step channels now p s ++ ds)
  unfolding deliver_step
  Rising-deliver_step p s hi ds h r =
      ground (arith, Rising-lower p.escalated_step s.step_order hi ds)

  pub Climbs-Rising :
      {p : ProblemEvent F} {steps : List EscalationStep} {r : ProblemEvent F × List (Delivery F)}
      → Climbs channels now p steps r
      → Rising p.escalated_step r.0.escalated_step r.1
  Climbs-Rising stop = omega arith
  Climbs-Rising (skip old c) = Climbs-Rising c
  Climbs-Rising (wait new early) = omega arith
  Climbs-Rising {p} (execute {s = s} {r = r} new due c) =
      Rising-deliver_step p s r.0.escalated_step r.1 new (Climbs-Rising c)

  -- a delivery of the rest of the ladder, after the step `s` was executed
  Sound-later :
      (p : ProblemEvent F) (s : EscalationStep) (ss : List EscalationStep) (d : Delivery F)
      → p.escalated_step < s.step_order
      → Sound (record p { escalated_step = s.step_order }) ss d
      → Sound p (s ∷ ss) d
  Sound-later p s ss d new h = record {
    step = h.step;
    on_ladder = Memᴰ.tail h.on_ladder;
    event = h.event;
    unexecuted = omega (arith, h.unexecuted);
    due = h.due;
    target = h.target;
    enabled = h.enabled;
    owned = h.owned;
    machine = h.machine;
  }

  Sound-skip :
      (p : ProblemEvent F) (s : EscalationStep) (ss : List EscalationStep) (d : Delivery F)
      → Sound p ss d
      → Sound p (s ∷ ss) d
  Sound-skip p s ss d h = record {
    step = h.step;
    on_ladder = Memᴰ.tail h.on_ladder;
    event = h.event;
    unexecuted = h.unexecuted;
    due = h.due;
    target = h.target;
    enabled = h.enabled;
    owned = h.owned;
    machine = h.machine;
  }

  deliver_to-Sound :
      (p : ProblemEvent F) (s : EscalationStep) (ss : List EscalationStep)
      (o : Option NotificationChannel)
      → p.escalated_step < s.step_order
      → p.started_at + minutes s.delay_minutes ≤ now
      → ((c : NotificationChannel) → o ≡ some c → c.id ≡ s.channel_id)
      → All (Sound p (s ∷ ss)) (deliver_to now p s o)
  unfolding deliver_to
  deliver_to-Sound p s ss none new due target = tt
  deliver_to-Sound p s ss (some c) new due target =
      elim (Bool-cases (c.owner_id == p.owner_id && c.is_enabled)) [
        | inr no_use ↦ rw no_use tt
        | inl usable ↦
            rw usable (elim (Bool-cases (is_some s.action_command && not (is_webhook c.kind))) [
              | inl mail ↦ rw mail tt
              | inr fits ↦ rw fits (
                record {
                  step = s;
                  on_ladder = Memᴰ.head refl;
                  event = refl;
                  unexecuted = new;
                  due = due;
                  target = target c refl;
                  enabled = ground arith;
                  owned = ground arith;
                  machine = ground arith;
                },
                tt,
              )
            ])
      ]

  pub Climbs-Sound :
      {p : ProblemEvent F} {steps : List EscalationStep} {r : ProblemEvent F × List (Delivery F)}
      → Climbs channels now p steps r
      → All (Sound p steps) r.1
  Climbs-Sound stop = tt
  Climbs-Sound {p} (skip {s = s} {ss = ss} {r = r} old c) =
      All-weaken (Sound p ss) (Sound p (s ∷ ss)) (Sound-skip p s ss) r.1 (Climbs-Sound c)
  Climbs-Sound (wait new early) = tt
  Climbs-Sound {p} (execute {s = s} {ss = ss} {r = r} new due c) =
      All-append (Sound p (s ∷ ss)) (deliver_step channels now p s) r.1
        (unfold deliver_step in
          deliver_to-Sound p s ss (step_channel channels s) new due
            (λ c e. find_channel _ channels e))
        (All-weaken _ _ (λ d. Sound-later p s ss d new) r.1 (Climbs-Sound c))
