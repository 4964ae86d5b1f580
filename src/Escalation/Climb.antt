-- ===== src/Escalation/Climb.antt =====
-- The loop of `due_escalations` over the steps, for one problem.
use ghostmon.Base.{
  ℕ, ◌+◌, ◌≤◌, ◌<◌, ◌≡◌, refl, List, [], ◌∷◌, ◌++◌, arith, leb, minutes, Bool-cases, inl, inr,
  leb→le,
}
use ghostmon.Model.Problem.{ProblemEvent}
use ghostmon.Model.Channel.{NotificationChannel}
use ghostmon.Model.Escalation.{EscalationStep}
use ghostmon.Escalation.{Delivery, climb, deliver_step, not_due}

module _ {F : Type 0} (channels : List NotificationChannel) (now : ℕ) where
  pub step-le-climb :
      (p : ProblemEvent F) (steps : List EscalationStep)
      → p.escalated_step ≤ (climb channels now p steps).0.escalated_step
  unfolding climb
  step-le-climb p [] = omega arith
  step-le-climb p (s ∷ ss) =
      ground
        (arith, step-le-climb p ss, step-le-climb (record p { escalated_step = s.step_order }) ss)

  -- only the column `escalated_step` changes
  pub climb-frame :
      (p : ProblemEvent F) (steps : List EscalationStep)
      → (climb channels now p steps).0
        ≡ record p { escalated_step = (climb channels now p steps).0.escalated_step }
  unfolding climb
  climb-frame p [] = refl
  climb-frame p (s ∷ ss) =
      ground (arith, climb-frame p ss, climb-frame (record p { escalated_step = s.step_order }) ss)

  pub climb_again :
      (p : ProblemEvent F) (steps : List EscalationStep) (n : ℕ) (q : ProblemEvent F)
      → n ≤ now
      → q.started_at ≡ p.started_at
      → q.escalated_step ≡ (climb channels now p steps).0.escalated_step
      → climb channels n q steps ≡ (q, [])
  unfolding climb
  climb_again p [] n q l a e = refl
  climb_again p (s ∷ ss) n q l a e = ground (
    arith,
    step-le-climb p ss,
    step-le-climb (record p { escalated_step = s.step_order }) ss,
    climb_again p ss n q l a,
    climb_again (record p { escalated_step = s.step_order }) ss n q l a,
  )

module _ {F : Type 0} (channels : List NotificationChannel) (now : ℕ) where
  -- The pass over a ladder as a relation.
  pub data Climbs
      : ProblemEvent F → List EscalationStep → ProblemEvent F × List (Delivery F) → Type 0 where
    stop : {p : ProblemEvent F} → Climbs p [] (p, [])
    skip :
        {p : ProblemEvent F} {s : EscalationStep} {ss : List EscalationStep}
        {r : ProblemEvent F × List (Delivery F)}
        → s.step_order ≤ p.escalated_step
        → Climbs p ss r
        → Climbs p (s ∷ ss) r
    wait :
        {p : ProblemEvent F} {s : EscalationStep} {ss : List EscalationStep}
        → p.escalated_step < s.step_order
        → now < p.started_at + minutes s.delay_minutes
        → Climbs p (s ∷ ss) (p, [])
    execute :
        {p : ProblemEvent F} {s : EscalationStep} {ss : List EscalationStep}
        {r : ProblemEvent F × List (Delivery F)}
        → p.escalated_step < s.step_order
        → p.started_at + minutes s.delay_minutes ≤ now
        → Climbs (record p { escalated_step = s.step_order }) ss r
        → Climbs p (s ∷ ss) (r.0, deliver_step channels now p s ++ r.1)

  pub climb-Climbs :
      (p : ProblemEvent F) (steps : List EscalationStep)
      → Climbs p steps (climb channels now p steps)
  unfolding climb
  climb-Climbs p [] = stop
  climb-Climbs p (s ∷ ss) = elim (Bool-cases (leb s.step_order p.escalated_step)) [
    | inl old ↦ rw old (skip (leb→le _ _ old) (climb-Climbs p ss))
    | inr new ↦ rw new (elim (Bool-cases (not_due now p s)) [
      | inl early ↦ rw early (wait (ground arith) (ground arith))
      | inr due ↦ rw due (
          execute (ground arith) (ground arith)
            (climb-Climbs (record p { escalated_step = s.step_order }) ss))
    ])
  ]
