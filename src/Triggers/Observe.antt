-- ===== src/Triggers/Observe.antt =====
-- `_observe` and `_observe_item` of app/core/services/trigger_service.py: the value that a trigger
-- compares with its threshold.
use ghostmon.Base.{
  ℕ, ◌+◌, Bool, true, false, ◌&&◌, ◌||◌, Option, none, some, List, [], ◌∷◌, leb, ◌==◌, str_eq,
  if◌then◌else◌, find, seconds,
}
use ghostmon.Model.Floats.{Aggregates}
use ghostmon.Model.Trigger.{TriggerMetric, TriggerAggregation, Trigger}
use ghostmon.Model.Monitor.{Monitor}
use ghostmon.Model.Host.{Item, MetricValue}
use ghostmon.Bridge.{latency_item_key}

abbrev pub is_last : TriggerAggregation → Bool
is_last TriggerAggregation.last = true
is_last _ = false

module _ {F : Type 0} ⦃agg : Aggregates F⦄ where
  -- `_AGGREGATE_FN`. It has no entry for LAST, and is not consulted there.
  unfoldable pub aggregate_fn : TriggerAggregation → List F → Option F
  aggregate_fn TriggerAggregation.avg column = agg.avg column
  aggregate_fn TriggerAggregation.min column = agg.min column
  aggregate_fn TriggerAggregation.max column = agg.max column
  aggregate_fn TriggerAggregation.last column = none

module _ {F : Type 0} where
  -- the numeric samples of the items `wanted` with `collected_at >= now - window`
  unfoldable pub window_column : (ℕ → Bool) → ℕ → ℕ → List (MetricValue F) → List F
  window_column wanted now window [] = []
  window_column wanted now window (v ∷ vs) =
      let rest = window_column wanted now window vs in
      elim v.value_num [
        | none ↦ rest
        | some x ↦
            if wanted v.item_id && leb now (v.collected_at + seconds window) then x ∷ rest else rest
      ]

-- the rows that the queries read
pub record History (F : Type 0) : Type 0 where
  pub monitors : List Monitor
  pub items : List Item
  pub values : List (MetricValue F)

abbrev pub opt_eq : Option ℕ → ℕ → Bool
opt_eq none k = false
opt_eq (some j) k = j == k

-- the join of item and monitor: the item is the latency item of the monitor's backing host
unfoldable pub is_latency_item : List Monitor → List Item → ℕ → ℕ → Bool
is_latency_item monitors items monitor_id item_id =
    elim (find (λ (i : Item). i.id == item_id) items) [
      | none ↦ false
      | some i ↦ elim (find (λ (m : Monitor). m.id == monitor_id) monitors) [
        | none ↦ false
        | some m ↦ str_eq i.key latency_item_key && opt_eq m.host_id i.host_id
      ]
    ]

module _ {F : Type 0} ⦃agg : Aggregates F⦄ where
  -- `_observe`; `values` is the dictionary of the freshly collected metrics
  unfoldable pub observe : History F → ℕ → (TriggerMetric → Option F) → ℕ → Trigger F → Option F
  unfolding aggregate_fn window_column is_latency_item
  observe db monitor_id values now t = elim t.metric [
    | none ↦ none
    | some metric ↦
        if is_last t.aggregation || t.window_seconds == 0
        then values metric
        else aggregate_fn t.aggregation (
            window_column (is_latency_item db.monitors db.items monitor_id) now t.window_seconds
              db.values)
  ]

  -- `_observe_item`
  unfoldable pub observe_item : History F → ℕ → Option F → ℕ → Trigger F → Option F
  unfolding aggregate_fn window_column
  observe_item db item_id latest_value now t =
      if is_last t.aggregation || t.window_seconds == 0
      then latest_value
      else aggregate_fn t.aggregation
          (window_column (λ i. i == item_id) now t.window_seconds db.values)
