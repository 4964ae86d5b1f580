-- ===== src/Triggers/Outcome.antt =====
-- What an evaluation leaves in each row of the table of triggers.
use ghostmon.Base.{
  ℕ, ◌≡◌, refl, Bool, true, false, Option, none, some, List, [], ◌∷◌, arith, if◌then◌else◌, String,
  map,
}
use ghostmon.Model.Floats.{Floats, Aggregates}
use ghostmon.Model.Trigger.{TriggerMetric, TriggerState, Trigger, state_eq}
use ghostmon.Problems.{Timeline}
use ghostmon.Triggers.{
  Audience, History, new_state, condition_met, evaluate_trigger, visit, evaluate_rows, evaluate,
  evaluate_item, observe, observe_item, of_monitor, of_item,
}

module _ {F : Type 0} ⦃fl : Floats F⦄ where
  -- What a row ought to be, by whether it is evaluated and what is seen: in PROBLEM exactly if the
  -- condition holds, with the time of the last change of state.
  pub settled : Bool → Option F → ℕ → Trigger F → Trigger F
  settled false seen now t = t
  settled true none now t = t
  settled true (some v) now t =
      let s =
        if condition_met t.operator v t.threshold then TriggerState.problem else TriggerState.ok in
      record t {
        state = s;
        state_changed_at = if state_eq s t.state then t.state_changed_at else some now;
      }

module _ {F A : Type 0} ⦃fl : Floats F⦄ (selected : Trigger F → Bool)
    (observe : Trigger F → Option F) (a : Option Audience) (now : ℕ)
    (alert : Trigger F → F → TriggerState → A) where
  visit-settled :
      (t : Trigger F) (tl : Timeline F)
      → (visit selected observe a now alert t tl).0 ≡ settled (selected t) (observe t) now t
  unfolding evaluate_trigger new_state settled
  visit-settled t tl = ground arith

  rows-settled :
      (ts : List (Trigger F)) (tl : Timeline F)
      → (evaluate_rows selected observe a now alert ts tl).triggers
        ≡ map (λ t. settled (selected t) (observe t) now t) ts
  unfolding evaluate_rows
  rows-settled [] tl = refl
  rows-settled (t ∷ ts) tl =
      rw (visit-settled t tl, rows-settled ts (visit selected observe a now alert t tl).1)

module _ {F : Type 0} ⦃fl : Floats F⦄ ⦃agg : Aggregates F⦄ where
  -- The table after `evaluate` is the table before with each row settled by itself: a row that is
  -- disabled, belongs to another monitor or has no data is untouched; any other is in PROBLEM exactly
  -- if its condition holds of the observed value and in OK if not, with the time of the evaluation if
  -- that is a change and no other column altered.
  pub evaluate-settled :
      (db : History F) (monitor_id : ℕ) (values : TriggerMetric → Option F) (now : ℕ)
      (owner_id : Option ℕ) (subject : Option String) (triggers : List (Trigger F))
      (tl : Timeline F)
      → (evaluate db monitor_id values now owner_id subject triggers tl).triggers
        ≡ map
            (λ t. settled (of_monitor monitor_id t) (observe db monitor_id values now t) now t)
            triggers
  unfolding evaluate
  evaluate-settled db monitor_id values now owner_id subject triggers tl =
      rows-settled _ _ _ now _ triggers tl

  -- The table after the evaluation of an item is the table before with each row settled by itself: a
  -- row that is not an enabled trigger of the item, or that observes nothing, is as it was, and any
  -- other is in the state that its value puts it in, changed now if that is another state.
  pub evaluate_item-settled :
      (db : History F) (item_id : ℕ) (item_key item_name : String) (host_id : ℕ)
      (host_name : String) (latest_value : Option F) (now : ℕ) (owner_id : Option ℕ)
      (triggers : List (Trigger F)) (tl : Timeline F)
      → (evaluate_item db item_id item_key item_name host_id host_name latest_value now owner_id
          triggers tl).triggers
        ≡ map
            (λ t. settled (of_item item_id t) (observe_item db item_id latest_value now t) now t)
            triggers
  unfolding evaluate_item
  evaluate_item-settled db item_id item_key item_name host_id host_name latest_value now owner_id
        triggers tl =
      rows-settled _ _ _ now _ triggers tl
