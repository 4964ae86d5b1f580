-- ===== src/Trends/Tests.antt =====
-- Rolling up three samples of two hours, with natural numbers for floats.
use ghostmon.Base.{ℕ, ◌+◌, ◌≡◌, refl, none, some, List, [], ◌∷◌, filterb, hours, or_else, arith}
use ghostmon.Model.Host.{MetricValue}
use ghostmon.Trends.{
  MetricTrend, Rollup, in_window, group_column, trend_row, rollup_trends, Settings, History,
  history_maintenance_job,
}
use ghostmon.Trends.Rolled.{trend_of, rollup_trends-trend_of}
use ghostmon.Trends.Kept.{rolled_before_pruned}

-- a database whose aggregates are all the first number
abbrev first_number : Rollup ℕ
first_number = record { min = λ x xs. x; avg = λ x xs. x; max = λ x xs. x }

abbrev sample : ℕ → ℕ → MetricValue ℕ
sample at n = record { item_id = 1; value_num = some n; value_text = none; collected_at = at }

abbrev samples : List (MetricValue ℕ)
samples =
    sample (hours 5 + 10) 7
    ∷ sample (hours 5 + 20) 9
    ∷ sample (hours 6 + 10) 4
    ∷ sample (hours 7 + 10) 8
    ∷ []

abbrev now : ℕ
now = hours 7 + 30

abbrev trend : ℕ → ℕ → ℕ → MetricTrend ℕ
trend bucket n count = record {
  item_id = 1;
  bucket = bucket;
  value_min = n;
  value_avg = n;
  value_max = n;
  sample_count = count;
}

-- the two hours that are over have a trend each, and the current hour has none
rolled_run :
    rollup_trends first_number now 6 samples [] ≡ trend (hours 5) 7 2 ∷ trend (hours 6) 4 1 ∷ []
unfolding rollup_trends
rolled_run = refl

rollup_trends-trend_of_example :
    trend_of (1, hours 5) (rollup_trends first_number now 6 samples [])
    ≡ or_else
        (trend_row first_number
          (1, hours 5)
          (group_column (1, hours 5) (filterb (in_window now 6) samples)))
        none
rollup_trends-trend_of_example =
    rollup_trends-trend_of first_number now 6 samples [] (1, hours 5) (omega arith)

abbrev settings : Settings
settings = record {
  history_retention_days = 30;
  trends_retention_days = 365;
  trends_rollup_lookback_hours = 6;
}

abbrev history : History ℕ
history = record { values = samples; results = []; trends = [] }

rolled_before_pruned_example :
    trend_of (1, hours 5) (history_maintenance_job first_number settings now history).trends
    ≡ or_else
        (trend_row first_number
          (1, hours 5)
          (group_column (1, hours 5) (filterb (in_window now 6) samples)))
        none
rolled_before_pruned_example =
    rolled_before_pruned first_number settings now history (1, hours 5) (omega arith) (omega arith)
