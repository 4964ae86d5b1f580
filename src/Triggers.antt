-- ===== src/Triggers.antt =====
-- app/core/services/trigger_service.py: evaluating the triggers of a monitor or of an item.
pub mod Rows
pub mod Synced
pub mod Fired
pub mod Outcome
pub mod Blind
mod Tests
mod Observe
unfoldable pub use Observe.*
use Prim.Native.String.{◌++◌ as str_append}
use ghostmon.Base.{
  ℕ, ◌+◌, Bool, true, false, ◌&&◌, ◌||◌, String, Option, none, some, List, [], ◌∷◌, ◌++◌, map, suc,
  ltb, leb, ◌==◌, str_eq, if◌then◌else◌, is_some, not, filterb, find, take, seconds,
}
use ghostmon.Model.Floats.{Floats, Aggregates}
use ghostmon.Model.Trigger.{
  Severity, TriggerMetric, TriggerOperator, TriggerAggregation, TriggerState, Trigger, state_eq,
}
use ghostmon.Model.Monitor.{Monitor}
use ghostmon.Model.Host.{Item, MetricValue}
use ghostmon.Problems.{Timeline, open_event, close_event}

pub record TriggerFired (F : Type 0) : Type 0 where
  pub trigger_id : ℕ
  pub trigger_name : String
  pub monitor_id : ℕ
  pub severity : Severity
  pub metric : Option TriggerMetric
  pub operator : TriggerOperator
  pub threshold : F
  pub value : F
  pub new_state : TriggerState

pub record ItemTriggerFired (F : Type 0) : Type 0 where
  pub trigger_id : ℕ
  pub trigger_name : String
  pub host_id : ℕ
  pub host_name : String
  pub item_key : String
  pub item_name : String
  pub severity : Severity
  pub operator : TriggerOperator
  pub threshold : F
  pub value : F
  pub new_state : TriggerState

-- Who sees the problem events: an owner and a subject, or nobody.
pub record Audience : Type 0 where
  pub owner_id : ℕ
  pub subject : String

module _ {F : Type 0} ⦃fl : Floats F⦄ where
  unfoldable pub condition_met : TriggerOperator → F → F → Bool
  condition_met TriggerOperator.gt value threshold = fl.gt value threshold
  condition_met TriggerOperator.ge value threshold = fl.ge value threshold
  condition_met TriggerOperator.lt value threshold = fl.lt value threshold
  condition_met TriggerOperator.le value threshold = fl.le value threshold

  -- the state that a value puts a trigger in
  unfoldable pub new_state : Trigger F → F → TriggerState
  unfolding condition_met
  new_state t value =
      if condition_met t.operator value t.threshold then TriggerState.problem else TriggerState.ok

module _ {F : Type 0} where
  unfoldable pub record_problem :
      Option Audience → Trigger F → TriggerState → F → ℕ → Timeline F → Timeline F
  record_problem none t state value now tl = tl
  record_problem (some a) t TriggerState.problem value now tl =
      open_event t.id a.owner_id a.subject t.name t.severity (some value) now tl
  record_problem (some a) t TriggerState.ok value now tl = close_event t.id now tl

-- What a pass over the rows leaves: the rows, the timeline and the alerts to raise.
pub record Evaluated (F A : Type 0) : Type 0 where
  pub triggers : List (Trigger F)
  pub timeline : Timeline F
  pub fired : List A

-- The loop of `evaluate` and `evaluate_item`, which differ in the rows that they select, in what
-- a trigger observes, and in the alert that they build.
module _ {F A : Type 0} ⦃fl : Floats F⦄ (selected : Trigger F → Bool)
    (observe : Trigger F → Option F) (audience : Option Audience) (now : ℕ)
    (alert : Trigger F → F → TriggerState → A) where
  -- the trigger after it changed its state
  abbrev pub flipped : Trigger F → TriggerState → Trigger F
  flipped t state = record t { state = state; state_changed_at = some now }

  -- one round of the loop, with `continue` where the row is left untouched
  pub evaluate_trigger : Trigger F → Timeline F → Trigger F × Timeline F × List A
  evaluate_trigger t tl = elim (observe t) [
    | none ↦ (t, tl, [])
    | some value ↦
        let state = new_state t value in
        if state_eq state t.state then (t, tl, []) else (
          flipped t state,
          record_problem audience t state value now tl,
          alert (flipped t state) value state ∷ [],
        )
  ]

  abbrev pub visit : Trigger F → Timeline F → Trigger F × Timeline F × List A
  visit t tl = if selected t then evaluate_trigger t tl else (t, tl, [])

  -- the rows of the table in order; those that the query does not select stay as they are
  pub evaluate_rows : List (Trigger F) → Timeline F → Evaluated F A
  unfolding evaluate_trigger
  evaluate_rows [] tl = record { triggers = []; timeline = tl; fired = [] }
  evaluate_rows (t ∷ ts) tl =
      let (t', tl', alerts) = visit t tl in
      let rest = evaluate_rows ts tl' in
      record {
        triggers = t' ∷ rest.triggers;
        timeline = rest.timeline;
        fired = alerts ++ rest.fired;
      }

-- problem events are recorded only when both the owner and the subject are given
abbrev pub audience_of : Option ℕ → Option String → Option Audience
audience_of (some owner_id) (some subject) =
    some (record { owner_id = owner_id; subject = subject })
audience_of _ _ = none

-- f"{host_name} / {item_key}"
abbrev pub item_subject : String → String → String
item_subject host_name item_key = str_append host_name (str_append " / " item_key)

abbrev pub item_audience : Option ℕ → String → String → Option Audience
item_audience none host_name item_key = none
item_audience (some owner_id) host_name item_key =
    some (record { owner_id = owner_id; subject = item_subject host_name item_key })

module _ {F : Type 0} ⦃fl : Floats F⦄ ⦃agg : Aggregates F⦄ where
  -- the two WHERE clauses
  abbrev pub of_monitor : ℕ → Trigger F → Bool
  of_monitor monitor_id t = opt_eq t.monitor_id monitor_id && t.is_enabled

  abbrev pub of_item : ℕ → Trigger F → Bool
  of_item item_id t = opt_eq t.item_id item_id && t.is_enabled

  abbrev pub fired_of : ℕ → Trigger F → F → TriggerState → TriggerFired F
  fired_of monitor_id t value state = record {
    trigger_id = t.id;
    trigger_name = t.name;
    monitor_id = monitor_id;
    severity = t.severity;
    metric = t.metric;
    operator = t.operator;
    threshold = t.threshold;
    value = value;
    new_state = state;
  }

  unfoldable pub evaluate :
      History F
      → ℕ
      → (TriggerMetric → Option F)
      → ℕ
      → Option ℕ
      → Option String
      → List (Trigger F)
      → Timeline F
      → Evaluated F (TriggerFired F)
  evaluate db monitor_id values now owner_id subject triggers tl =
      evaluate_rows (of_monitor monitor_id) (observe db monitor_id values now)
        (audience_of owner_id subject) now (fired_of monitor_id) triggers tl

  abbrev pub item_fired_of :
      String → String → ℕ → String → Trigger F → F → TriggerState → ItemTriggerFired F
  item_fired_of item_key item_name host_id host_name t value state = record {
    trigger_id = t.id;
    trigger_name = t.name;
    host_id = host_id;
    host_name = host_name;
    item_key = item_key;
    item_name = item_name;
    severity = t.severity;
    operator = t.operator;
    threshold = t.threshold;
    value = value;
    new_state = state;
  }

  unfoldable pub evaluate_item :
      History F
      → ℕ
      → String
      → String
      → ℕ
      → String
      → Option F
      → ℕ
      → Option ℕ
      → List (Trigger F)
      → Timeline F
      → Evaluated F (ItemTriggerFired F)
  evaluate_item db item_id item_key item_name host_id host_name latest_value now owner_id triggers
        tl =
      evaluate_rows (of_item item_id) (observe_item db item_id latest_value now)
        (item_audience owner_id host_name item_key) now
        (item_fired_of item_key item_name host_id host_name) triggers tl
