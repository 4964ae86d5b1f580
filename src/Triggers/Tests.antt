-- ===== src/Triggers/Tests.antt =====
-- Runs of the evaluation, and the theorems at concrete inputs.
use ghostmon.Base.{ℕ, ◌≡◌, refl, true, Option, none, some, List, [], ◌∷◌, arith, map}
use ghostmon.Model.Floats.{nat_floats, nat_aggregates}
use ghostmon.Model.Trigger.{
  Severity, TriggerMetric, TriggerOperator, TriggerAggregation, TriggerState, Trigger,
}
use ghostmon.Problems.{Timeline, open_event, close_event, acknowledge}
use ghostmon.Problems.Open.{open_count}
use ghostmon.Problems.Acknowledge.{acknowledge_first_stays}
use ghostmon.Triggers.{
  Evaluated, TriggerFired, History, record_problem, evaluate, evaluate_rows, evaluate_item, observe,
  of_monitor, new_state,
}
use ghostmon.Triggers.Synced.{Synced, evaluate-Synced}
use ghostmon.Triggers.Fired.{changes, report, item_report, evaluate-changes, evaluate_item-changes}
use ghostmon.Triggers.Outcome.{settled, evaluate-settled}

abbrev no_history : History ℕ
no_history = record { monitors = []; items = []; values = [] }

-- latency_ms > 100 on monitor 7
abbrev slow : Trigger ℕ
slow = record {
  id = 1;
  name = "slow";
  monitor_id = some 7;
  item_id = none;
  metric = some TriggerMetric.latency_ms;
  operator = TriggerOperator.gt;
  threshold = 100;
  severity = Severity.high;
  aggregation = TriggerAggregation.last;
  window_seconds = 0;
  is_enabled = true;
  state = TriggerState.ok;
  state_changed_at = none;
}

-- the same rule on item 9
abbrev hot : Trigger ℕ
hot = record slow { id = 2; monitor_id = none; item_id = some 9; metric = none }

abbrev table : List (Trigger ℕ)
table = slow ∷ hot ∷ []

abbrev quiet : Timeline ℕ
quiet = record { events = []; next_id = 50 }

abbrev latency : ℕ → TriggerMetric → Option ℕ
latency n m = some n

abbrev after_slow_probe : Evaluated ℕ (TriggerFired ℕ)
after_slow_probe = evaluate no_history 7 (latency 150) 1000 (some 3) (some "web") table quiet

slow_probe_opens :
    (open_count 1 after_slow_probe.timeline.events ≡ 1)
    × (map report after_slow_probe.fired ≡ (1, TriggerState.problem) ∷ [])
unfolding evaluate evaluate_rows observe new_state record_problem open_event open_count
slow_probe_opens = (refl, refl)

recovery_closes :
    open_count 1
      (evaluate no_history 7
        (latency 20)
        2000
        (some 3)
        (some "web")
        after_slow_probe.triggers
        after_slow_probe.timeline).timeline.events
    ≡ 0
unfolding evaluate evaluate_rows observe new_state record_problem open_event close_event open_count
recovery_closes = refl

quiet-Synced : Synced table quiet
unfolding open_count
quiet-Synced = record { distinct = omega arith; agree = omega arith }

evaluate-Synced_example : Synced after_slow_probe.triggers after_slow_probe.timeline
evaluate-Synced_example =
    evaluate-Synced no_history 7 (latency 150) 1000 3 "web" table quiet quiet-Synced

evaluate-changes_example :
    map report after_slow_probe.fired ≡ changes table after_slow_probe.triggers
evaluate-changes_example =
    evaluate-changes no_history 7 (latency 150) 1000 (some 3) (some "web") table quiet

evaluate_item-changes_example :
    let r = evaluate_item no_history 9 "temp" "Temp" 4 "rack" (some 150) 1000 none table quiet in
    map item_report r.fired ≡ changes table r.triggers
evaluate_item-changes_example =
    evaluate_item-changes no_history 9 "temp" "Temp" 4 "rack" (some 150) 1000 none table quiet

evaluate-settled_example :
    after_slow_probe.triggers
    ≡ map (λ t. settled (of_monitor 7 t) (observe no_history 7 (latency 150) 1000 t) 1000 t) table
evaluate-settled_example =
    evaluate-settled no_history 7 (latency 150) 1000 (some 3) (some "web") table quiet

acknowledge_first_stays_example :
    acknowledge 50 3 8 3000 (acknowledge 50 3 3 2000 after_slow_probe.timeline).1
    ≡ acknowledge 50 3 3 2000 after_slow_probe.timeline
acknowledge_first_stays_example =
    acknowledge_first_stays 50 3 3 8 2000 3000 after_slow_probe.timeline
