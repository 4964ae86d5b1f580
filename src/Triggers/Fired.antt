-- ===== src/Triggers/Fired.antt =====
-- What an evaluation of app/core/services/trigger_service.py reports, and a second evaluation.
use ghostmon.Base.{ℕ, ◌≡◌, refl, Bool, Option, List, [], ◌∷◌, arith, if◌then◌else◌, String, map}
use ghostmon.Model.Floats.{Floats, Aggregates}
use ghostmon.Model.Trigger.{TriggerMetric, TriggerState, Trigger, state_eq}
use ghostmon.Problems.{Timeline}
use ghostmon.Triggers.{
  Audience, TriggerFired, ItemTriggerFired, History, new_state, evaluate_trigger, visit,
  evaluate_rows, flipped, evaluate, evaluate_item, observe, observe_item, of_monitor, of_item,
}

module _ {F : Type 0} where
  -- the rows of a table that are in another state in a later version of it, with the later state
  pub changes : List (Trigger F) → List (Trigger F) → List (ℕ × TriggerState)
  changes [] later = []
  changes (t ∷ ts) [] = []
  changes (t ∷ ts) (u ∷ us) =
      let rest = changes ts us in if state_eq t.state u.state then rest else (u.id, u.state) ∷ rest

module _ {F A : Type 0} ⦃fl : Floats F⦄ (selected : Trigger F → Bool)
    (observe : Trigger F → Option F) (a : Option Audience) (now : ℕ)
    (alert : Trigger F → F → TriggerState → A) (label : A → ℕ × TriggerState)
    (labels : (t : Trigger F) (v : F) (s : TriggerState) → label (alert t v s) ≡ (t.id, s)) where
  rows_changes :
      (ts : List (Trigger F)) (tl : Timeline F)
      → map label (evaluate_rows selected observe a now alert ts tl).fired
        ≡ changes ts (evaluate_rows selected observe a now alert ts tl).triggers
  unfolding evaluate_rows changes evaluate_trigger
  rows_changes [] tl = refl
  rows_changes (t ∷ ts) tl =
      grind (arith, labels, rows_changes ts (visit selected observe a now alert t tl).1)

module _ {F A : Type 0} ⦃fl : Floats F⦄ (selected : Trigger F → Bool)
    (observe : Trigger F → Option F) (a : Option Audience) (now : ℕ)
    (alert : Trigger F → F → TriggerState → A)
    (select_again : (t : Trigger F) (s : TriggerState)
      → selected (flipped selected observe a now alert t s) ≡ selected t)
    (observe_again : (t : Trigger F) (s : TriggerState)
      → observe (flipped selected observe a now alert t s) ≡ observe t) where
  visit_again :
      (t : Trigger F) (tl later : Timeline F)
      → visit selected observe a now alert (visit selected observe a now alert t tl).0 later
        ≡ ((visit selected observe a now alert t tl).0, later, [])
  unfolding evaluate_trigger new_state
  visit_again t tl later = grind (arith, select_again, observe_again)

  rows_again :
      (ts : List (Trigger F)) (tl later : Timeline F)
      → let once = evaluate_rows selected observe a now alert ts tl in
        evaluate_rows selected observe a now alert once.triggers later
        ≡ record { triggers = once.triggers; timeline = later; fired = [] }
  unfolding evaluate_rows
  rows_again [] tl later = refl
  rows_again (t ∷ ts) tl later =
      rw (visit_again t tl later)
        (rw (rows_again ts (visit selected observe a now alert t tl).1 later))

module _ {F : Type 0} ⦃fl : Floats F⦄ ⦃agg : Aggregates F⦄ where
  abbrev pub report : TriggerFired F → ℕ × TriggerState
  report f = (f.trigger_id, f.new_state)

  abbrev pub item_report : ItemTriggerFired F → ℕ × TriggerState
  item_report f = (f.trigger_id, f.new_state)

  -- The alerts that `evaluate` returns are those of the rows whose state is another one afterwards,
  -- each once, in the order of the table and with the new state.
  pub evaluate-changes :
      (db : History F) (monitor_id : ℕ) (values : TriggerMetric → Option F) (now : ℕ)
      (owner_id : Option ℕ) (subject : Option String) (triggers : List (Trigger F))
      (tl : Timeline F)
      → let r = evaluate db monitor_id values now owner_id subject triggers tl in
        map report r.fired ≡ changes triggers r.triggers
  unfolding evaluate
  evaluate-changes db monitor_id values now owner_id subject triggers tl =
      rows_changes _ _ _ now _ report (λ t v s. refl) triggers tl

  pub evaluate_item-changes :
      (db : History F) (item_id : ℕ) (item_key item_name : String) (host_id : ℕ)
      (host_name : String) (latest_value : Option F) (now : ℕ) (owner_id : Option ℕ)
      (triggers : List (Trigger F)) (tl : Timeline F)
      → let r =
          evaluate_item db item_id item_key item_name host_id host_name latest_value now owner_id
            triggers tl in
        map item_report r.fired ≡ changes triggers r.triggers
  unfolding evaluate_item
  evaluate_item-changes db item_id item_key item_name host_id host_name latest_value now owner_id
        triggers tl =
      rows_changes _ _ _ now _ item_report (λ t v s. refl) triggers tl

  -- A second evaluation of a monitor at the same moment, over the same history and values, changes no
  -- row and no event and returns no alert.
  pub evaluate_again :
      (db : History F) (monitor_id : ℕ) (values : TriggerMetric → Option F) (now : ℕ)
      (owner_id : Option ℕ) (subject : Option String) (triggers : List (Trigger F))
      (tl : Timeline F)
      → let once = evaluate db monitor_id values now owner_id subject triggers tl in
        evaluate db monitor_id values now owner_id subject once.triggers once.timeline
        ≡ record { triggers = once.triggers; timeline = once.timeline; fired = [] }
  unfolding evaluate observe
  evaluate_again db monitor_id values now owner_id subject triggers tl =
      rows_again (of_monitor monitor_id) (observe db monitor_id values now) _ now _ (λ t s. refl)
        (λ t s. refl) triggers tl _

  pub evaluate_item_again :
      (db : History F) (item_id : ℕ) (item_key item_name : String) (host_id : ℕ)
      (host_name : String) (latest_value : Option F) (now : ℕ) (owner_id : Option ℕ)
      (triggers : List (Trigger F)) (tl : Timeline F)
      → let again =
          evaluate_item db item_id item_key item_name host_id host_name latest_value now owner_id in
        let once = again triggers tl in
        again once.triggers once.timeline
        ≡ record { triggers = once.triggers; timeline = once.timeline; fired = [] }
  unfolding evaluate_item observe_item
  evaluate_item_again db item_id item_key item_name host_id host_name latest_value now owner_id
        triggers tl =
      rows_again (of_item item_id) (observe_item db item_id latest_value now) _ now _ (λ t s. refl)
        (λ t s. refl) triggers tl _
