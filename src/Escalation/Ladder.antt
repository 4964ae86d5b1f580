-- ===== src/Escalation/Ladder.antt =====
-- The pass over a ladder of `due_escalations` and the order of the delays.
use mathlib.Core.List.{Memᴰ}
use ghostmon.Base.{
  ℕ, ◌+◌, ◌≤◌, ◌<◌, ◌≡◌, refl, Bool, true, false, ◌&&◌, List, [], ◌∷◌, arith, ltb, not, minutes,
  All, All-at, All-weaken, concat_map, filterb, filterb_cong, filterb_none,
}
use ghostmon.Model.Problem.{ProblemEvent}
use ghostmon.Model.Channel.{NotificationChannel}
use ghostmon.Model.Escalation.{EscalationStep}
use ghostmon.Escalation.{Delivery, climb, deliver_step, not_due}
use ghostmon.Escalation.Climb.{Climbs, stop, skip, wait, execute, climb-Climbs}

-- the orders rise and the delays do not fall
abbrev pub IsLadder : List EscalationStep → Type 0
IsLadder [] = Unit
IsLadder (s ∷ ss) =
    All (λ t. (s.step_order < t.step_order) × (s.delay_minutes ≤ t.delay_minutes)) ss × IsLadder ss

module _ {F : Type 0} (channels : List NotificationChannel) (now : ℕ) where
  -- above the progress of the problem, and due
  abbrev pub is_pending : ProblemEvent F → EscalationStep → Bool
  is_pending p s = ltb p.escalated_step s.step_order && not (not_due now p s)

  Climbs-filter :
      {p : ProblemEvent F} {steps : List EscalationStep} {r : ProblemEvent F × List (Delivery F)}
      → IsLadder steps
      → Climbs channels now p steps r
      → r.1 ≡ concat_map (deliver_step channels now p) (filterb (is_pending p) steps)
  unfolding deliver_step
  Climbs-filter l stop = refl
  Climbs-filter {p} l (skip {s = s} {ss = ss} old c) =
      let no_more : is_pending p s ≡ false = ground arith in rw no_more (Climbs-filter l.1 c)
  Climbs-filter {p} l (wait {s = s} {ss = ss} new early) = rw (
      filterb_none (is_pending p) (s ∷ ss)
        (ground arith, All-weaken _ (λ t. is_pending p t ≡ false) (λ t h. ground arith) ss l.0))
  Climbs-filter {p} l (execute {s = s} {ss = ss} new due c) =
      let pending : is_pending p s ≡ true = ground arith in
      rw (
        pending,
        Climbs-filter l.1 c,
        filterb_cong (is_pending (record p { escalated_step = s.step_order })) (is_pending p) ss
            (All-weaken _ _ (λ t h. ground arith) ss l.0),
      )

  -- On a ladder with rising orders and delays that do not fall, the pass over a problem makes exactly
  -- the deliveries of the steps that are above its progress and due, in order.
  pub climb-filter :
      (p : ProblemEvent F) (steps : List EscalationStep)
      → IsLadder steps
      → (climb channels now p steps).1
        ≡ concat_map (deliver_step channels now p) (filterb (is_pending p) steps)
  climb-filter p steps l = Climbs-filter l (climb-Climbs channels now p steps)

  Climbs-reaches_due :
      {p : ProblemEvent F} {steps : List EscalationStep} {r : ProblemEvent F × List (Delivery F)}
      → IsLadder steps
      → Climbs channels now p steps r
      → (p.escalated_step ≤ r.0.escalated_step)
        × All
            (λ s. p.started_at + minutes s.delay_minutes ≤ now → s.step_order ≤ r.0.escalated_step)
            steps
  Climbs-reaches_due l stop = (omega arith, tt)
  Climbs-reaches_due l (skip old c) =
      let (le, rest) = Climbs-reaches_due l.1 c in (le, ((λ due. omega arith), rest))
  Climbs-reaches_due {p} l (wait {s = s} {ss = ss} new early) = (
    omega arith,
    ((λ due. absurd (omega arith)), All-weaken _ _ (λ t h due. absurd (omega arith)) ss l.0),
  )
  Climbs-reaches_due l (execute new due c) =
      let (le, rest) = Climbs-reaches_due l.1 c in (omega arith, ((λ d. le), rest))

  -- On such a ladder no due step is left behind: the progress after the pass has reached every step
  -- whose delay has elapsed.
  pub due-le-climb :
      (p : ProblemEvent F) (steps : List EscalationStep) (s : EscalationStep)
      → IsLadder steps
      → Memᴰ s steps
      → p.started_at + minutes s.delay_minutes ≤ now
      → s.step_order ≤ (climb channels now p steps).0.escalated_step
  due-le-climb p steps s l m =
      All-at
        (λ t.
          p.started_at + minutes t.delay_minutes ≤ now
          → t.step_order ≤ (climb channels now p steps).0.escalated_step)
        steps (Climbs-reaches_due l (climb-Climbs channels now p steps)).1 m
