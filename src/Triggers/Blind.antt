-- ===== src/Triggers/Blind.antt =====
-- A pass in which no trigger observes a value.
use ghostmon.Base.{ℕ, ◌≡◌, refl, Bool, Option, none, List, [], ◌∷◌, arith, All}
use ghostmon.Model.Floats.{Floats}
use ghostmon.Model.Trigger.{Trigger, TriggerState}
use ghostmon.Problems.{Timeline}
use ghostmon.Triggers.{Audience, evaluate_trigger, evaluate_rows}

module _ {F A : Type 0} ⦃fl : Floats F⦄ (selected : Trigger F → Bool)
    (observe : Trigger F → Option F) (a : Option Audience) (now : ℕ)
    (alert : Trigger F → F → TriggerState → A) where
  -- where no trigger observes anything, nothing changes and nothing is alerted
  pub rows_blind :
      (ts : List (Trigger F)) (tl : Timeline F)
      → All (λ t. observe t ≡ none) ts
      → evaluate_rows selected observe a now alert ts tl
        ≡ record { triggers = ts; timeline = tl; fired = [] }
  unfolding evaluate_rows evaluate_trigger
  rows_blind [] tl h = refl
  rows_blind (t ∷ ts) tl h = ground (arith, h.0, rows_blind ts tl h.1)
