-- ===== src/Trends/Kept.antt =====
-- `_history_maintenance_job` of app/tasks/scheduler.py and the trends.
use ghostmon.Base.{
  ℕ, ◌+◌, ◌≤◌, ◌<◌, ◌≡◌, refl, List, [], ◌∷◌, ltb, if◌then◌else◌, filterb, arith, Bool-cases, inl,
  inr, ◌∙◌, or_else, days,
}
use ghostmon.Trends.{
  MetricTrend, Rollup, Key, in_window, group_column, trend_row, rollup_trends, prune_trends,
  Settings, History, history_maintenance_job,
}
use ghostmon.Trends.Rolled.{trend_of, rollup_trends-trend_of}

module _ {F : Type 0} where
  -- a trend whose bucket is not before the cutoff is not pruned
  prune_trends-trend_of :
      (now keep : ℕ) (k : Key) (trends : List (MetricTrend F))
      → now ≤ k.1 + days keep
      → trend_of k (prune_trends now keep trends) ≡ trend_of k trends
  unfolding prune_trends
  prune_trends-trend_of now keep k [] recent = refl
  prune_trends-trend_of now keep k (t ∷ ts) recent =
      ground (arith, recent, prune_trends-trend_of now keep k ts recent)

  -- The hourly job rolls up before it prunes: with a positive lookback, every item and hour whose trend
  -- is not past its own retention has the trend of all the numbers that the history held before the job within the
  -- window, those that the job deletes included, or the trend from before where there are none.
  pub rolled_before_pruned :
      (db : Rollup F) (settings : Settings) (now : ℕ) (h : History F) (k : Key)
      → 0 < settings.trends_rollup_lookback_hours
      → now ≤ k.1 + days settings.trends_retention_days
      → trend_of k (history_maintenance_job db settings now h).trends
        ≡ or_else
            (trend_row db k (
              group_column k
                (filterb (in_window now settings.trends_rollup_lookback_hours) h.values)))
            (trend_of k h.trends)
  unfolding history_maintenance_job
  rolled_before_pruned db settings now h k positive recent =
      let rolled = rollup_trends db now settings.trends_rollup_lookback_hours h.values h.trends in
      kept rolled
      ∙ rollup_trends-trend_of db now settings.trends_rollup_lookback_hours h.values h.trends k
          positive
    where
      kept :
          (rolled : List (MetricTrend F))
          → trend_of k (
              if ltb 0 settings.trends_retention_days
              then prune_trends now settings.trends_retention_days rolled
              else rolled)
            ≡ trend_of k rolled
      kept rolled = elim (Bool-cases (ltb 0 settings.trends_retention_days)) [
        | inl pruned ↦
            rw pruned (prune_trends-trend_of now settings.trends_retention_days k rolled recent)
        | inr all ↦ rw all refl
      ]
