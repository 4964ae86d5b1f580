-- ===== src/Trends.antt =====
-- app/tasks/trends.py, app/tasks/retention.py, and the hourly job of app/tasks/scheduler.py that
-- runs them.
pub mod Rolled
pub mod Kept
mod Tests
use ghostmon.Base.{
  ℕ, suc, ◌+◌, ◌-◌, ◌*◌, ◌/◌, Bool, true, false, ◌&&◌, ◌||◌, not, Option, none, some, List, [], ◌∷◌,
  ◌++◌, leb, ltb, ◌==◌, if◌then◌else◌, is_some, filterb, find, length, hours, days,
}
use ghostmon.Model.Host.{MetricValue}
use ghostmon.Model.Monitor.{MonitorResult}

-- app/core/models/metric_trend.py. A bucket is named by the start of its hour.
pub record MetricTrend (F : Type 0) : Type 0 where
  pub item_id : ℕ
  pub bucket : ℕ
  pub value_min : F
  pub value_avg : F
  pub value_max : F
  pub sample_count : ℕ

-- what the database aggregates over a column of numbers that is not empty
pub record Rollup (F : Type 0) : Type 0 where
  pub min : F → List F → F
  pub avg : F → List F → F
  pub max : F → List F → F

-- `_hour_floor`, `date_trunc`
unfoldable pub hour_floor : ℕ → ℕ
hour_floor moment = hours (moment / hours 1)

-- a group of the query: an item and a bucket
abbrev pub Key : Type 0
Key = ℕ × ℕ

abbrev pub key_eq : Key → Key → Bool
key_eq (i, b) (j, c) = i == j && b == c

abbrev pub has_key : Key → List Key → Bool
has_key k [] = false
has_key k (j ∷ js) = key_eq k j || has_key k js

module _ {F : Type 0} where
  abbrev pub trend_key : MetricTrend F → Key
  trend_key t = (t.item_id, t.bucket)

  unfoldable pub sample_key : MetricValue F → Key
  unfolding hour_floor
  sample_key v = (v.item_id, hour_floor v.collected_at)

  -- the WHERE clause: `collected_at >= current_hour - lookback` and before the current hour
  unfoldable pub in_window : ℕ → ℕ → MetricValue F → Bool
  unfolding hour_floor
  in_window now lookback_hours v =
      is_some v.value_num
      && leb (hour_floor now) (v.collected_at + hours lookback_hours)
      && ltb v.collected_at (hour_floor now)

  -- the numbers of a group, of rows that passed the WHERE clause
  unfoldable pub group_column : Key → List (MetricValue F) → List F
  unfolding sample_key
  group_column k [] = []
  group_column k (v ∷ vs) =
      let rest = group_column k vs in
      elim v.value_num [ none ↦ rest | some x ↦ if key_eq (sample_key v) k then x ∷ rest else rest ]

  -- the groups, each once
  unfoldable pub group_keys : List (MetricValue F) → List Key
  unfolding sample_key
  group_keys [] = []
  group_keys (v ∷ vs) =
      let rest = group_keys vs in if has_key (sample_key v) rest then rest else sample_key v ∷ rest

  -- ON CONFLICT DO UPDATE
  unfoldable pub upsert : MetricTrend F → List (MetricTrend F) → List (MetricTrend F)
  upsert t [] = t ∷ []
  upsert t (u ∷ us) =
      let rest = upsert t us in if key_eq (trend_key u) (trend_key t) then t ∷ us else u ∷ rest

  module _ (db : Rollup F) where
    -- the row of a group; a group of the query has a number at least
    unfoldable pub trend_row : Key → List F → Option (MetricTrend F)
    trend_row k [] = none
    trend_row (item_id, bucket) (x ∷ xs) = some (record {
      item_id = item_id;
      bucket = bucket;
      value_min = db.min x xs;
      value_avg = db.avg x xs;
      value_max = db.max x xs;
      sample_count = length (x ∷ xs);
    })

    abbrev pub upsert_row : Option (MetricTrend F) → List (MetricTrend F) → List (MetricTrend F)
    upsert_row none trends = trends
    upsert_row (some t) trends = upsert t trends

    unfoldable pub upsert_groups :
        List Key → List (MetricValue F) → List (MetricTrend F) → List (MetricTrend F)
    unfolding trend_row group_column upsert
    upsert_groups [] values trends = trends
    upsert_groups (k ∷ ks) values trends =
        upsert_groups ks values (upsert_row (trend_row k (group_column k values)) trends)

    unfoldable pub rollup_trends :
        ℕ → ℕ → List (MetricValue F) → List (MetricTrend F) → List (MetricTrend F)
    unfolding upsert_groups in_window group_keys
    rollup_trends now lookback_hours values trends =
        let source = filterb (in_window now lookback_hours) values in
        if leb lookback_hours 0 then trends else upsert_groups (group_keys source) source trends

  -- The rows that are deleted are those before the cutoff `now - days`.
  unfoldable pub prune_trends : ℕ → ℕ → List (MetricTrend F) → List (MetricTrend F)
  prune_trends now trends_days trends = filterb (λ t. leb now (t.bucket + days trends_days)) trends

  unfoldable pub prune_values : ℕ → ℕ → List (MetricValue F) → List (MetricValue F)
  prune_values now retention_days values =
      filterb (λ v. leb now (v.collected_at + days retention_days)) values

unfoldable pub prune_results : ℕ → ℕ → List MonitorResult → List MonitorResult
prune_results now retention_days results =
    filterb (λ r. leb now (r.checked_at + days retention_days)) results

pub record Settings : Type 0 where
  pub history_retention_days : ℕ
  pub trends_retention_days : ℕ
  pub trends_rollup_lookback_hours : ℕ

pub record History (F : Type 0) : Type 0 where
  pub values : List (MetricValue F)
  pub results : List MonitorResult
  pub trends : List (MetricTrend F)

-- `_history_maintenance_job`
unfoldable pub history_maintenance_job :
    {F : Type 0} → Rollup F → Settings → ℕ → History F → History F
unfolding rollup_trends prune_trends prune_values prune_results
history_maintenance_job db settings now h =
    let rolled = rollup_trends db now settings.trends_rollup_lookback_hours h.values h.trends in
    let keep = settings.history_retention_days in
    record {
      values = if ltb 0 keep then prune_values now keep h.values else h.values;
      results = if ltb 0 keep then prune_results now keep h.results else h.results;
      trends =
          if ltb 0 settings.trends_retention_days
          then prune_trends now settings.trends_retention_days rolled
          else rolled;
    }
