-- ===== src/Triggers/Rows.antt =====
-- One round of the evaluation loop: what it does to its trigger, to the timeline and to the alerts.
use ghostmon.Base.{ℕ, ◌+◌, ◌≡◌, ◌≢◌, refl, Bool, Option, none, some, arith, ◌==◌, if◌then◌else◌}
use ghostmon.Model.Floats.{Floats}
use ghostmon.Model.Trigger.{TriggerState, Trigger}
use ghostmon.Problems.{Timeline}
use ghostmon.Problems.Open.{open_count, open_count-open_event, open_count-close_event}
use ghostmon.Triggers.{Audience, record_problem, evaluate_trigger, visit}

-- how many ongoing events a trigger in the state ought to have
abbrev pub expected : TriggerState → ℕ
expected TriggerState.ok = 0
expected TriggerState.problem = 1

module _ {F : Type 0} where
  pub open_count-record_problem :
      (k : ℕ) (a : Audience) (t : Trigger F) (state : TriggerState) (v : F) (now : ℕ)
      (tl : Timeline F)
      → open_count t.id tl.events + expected state ≡ 1
      → open_count k (record_problem (some a) t state v now tl).events
        ≡ (if t.id == k then expected state else open_count k tl.events)
  unfolding record_problem
  open_count-record_problem k a t TriggerState.ok v now tl h =
      rw open_count-close_event (ground arith)
  open_count-record_problem k a t TriggerState.problem v now tl h =
      rw open_count-open_event (ground arith)

  pub open_count-record_problem_ne :
      (k : ℕ) (a : Option Audience) (t : Trigger F) (state : TriggerState) (v : F) (now : ℕ)
      (tl : Timeline F)
      → t.id ≢ k
      → open_count k (record_problem a t state v now tl).events ≡ open_count k tl.events
  unfolding record_problem
  open_count-record_problem_ne k none t state v now tl h = refl
  open_count-record_problem_ne k (some a) t TriggerState.ok v now tl h =
      rw open_count-close_event (ground arith)
  open_count-record_problem_ne k (some a) t TriggerState.problem v now tl h =
      rw open_count-open_event (ground arith)

module _ {F A : Type 0} ⦃fl : Floats F⦄ (selected : Trigger F → Bool)
    (observe : Trigger F → Option F) (audience : Option Audience) (now : ℕ)
    (alert : Trigger F → F → TriggerState → A) where
  pub id-visit :
      (t : Trigger F) (tl : Timeline F)
      → (visit selected observe audience now alert t tl).0.id ≡ t.id
  unfolding evaluate_trigger
  id-visit t tl = ground arith

  -- the events of other triggers are left alone
  pub open_count-visit_ne :
      (k : ℕ) (t : Trigger F) (tl : Timeline F)
      → t.id ≢ k
      → open_count k (visit selected observe audience now alert t tl).1.events
        ≡ open_count k tl.events
  unfolding evaluate_trigger
  open_count-visit_ne k t tl h = grind (arith, open_count-record_problem_ne)
