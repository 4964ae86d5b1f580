-- ===== src/Escalation/Tests.antt =====
-- A problem on a ladder of two steps, and the theorems at it.
use ghostmon.Base.{
  ℕ, ◌≡◌, refl, true, none, some, List, [], ◌∷◌, map, arith, Memᴰ, minutes, Distinct,
}
use ghostmon.Model.Trigger.{Severity}
use ghostmon.Model.Problem.{ProblemEvent}
use ghostmon.Model.Channel.{NotificationChannel, ChannelType}
use ghostmon.Model.Escalation.{EscalationStep, EscalationPolicy}
use ghostmon.Problems.{Timeline, open_event, acknowledge}
use ghostmon.Problems.Later.{WellNumbered}
use ghostmon.Escalation.{
  Delivery, climb, deliver_step, escalate, policy_of, enabled_policy, escalate_rows,
  due_escalations,
}
use ghostmon.Escalation.Ladder.{IsLadder}
use ghostmon.Escalation.Runs.{Op, tick, opens, acks, perform, run, Unrepeated, run-Unrepeated}
use ghostmon.Escalation.Policies.{
  EscalationStepCreate, EscalationPolicyCreate, validate_channels, step_row,
}
use ghostmon.Escalation.EmptyCommand.{empty_command_lost}

abbrev mail : NotificationChannel
mail = record {
  id = 11;
  name = "mail";
  kind = ChannelType.email;
  config = record { to = some "a@b"; url = none; secret = none };
  is_enabled = true;
  min_severity = Severity.info;
  owner_id = 3;
}

abbrev hook : NotificationChannel
hook = record mail { id = 12; name = "hook"; kind = ChannelType.webhook }

abbrev channels : List NotificationChannel
channels = mail ∷ hook ∷ []

abbrev first_step : EscalationStep
first_step = record {
  id = 1;
  step_order = 1;
  delay_minutes = 5;
  channel_id = 11;
  action_command = none;
}

abbrev second_step : EscalationStep
second_step = record {
  id = 2;
  step_order = 2;
  delay_minutes = 30;
  channel_id = 12;
  action_command = some "restart";
}

abbrev ladder : List EscalationStep
ladder = first_step ∷ second_step ∷ []

abbrev policies : List EscalationPolicy
policies =
    record {
      id = 1;
      owner_id = 3;
      name = "on call";
      is_enabled = true;
      created_at = 0;
      steps = ladder;
    }
    ∷ []

abbrev outage : ProblemEvent ℕ
outage = record {
  id = 50;
  trigger_id = 1;
  owner_id = 3;
  subject = "web";
  trigger_name = "slow";
  severity = Severity.high;
  value = some 150;
  started_at = 0;
  resolved_at = none;
  acknowledged_at = none;
  acknowledged_by_id = none;
  escalated_step = 0;
}

abbrev orders_sent : List (Delivery ℕ) → List ℕ
orders_sent = map (λ d. d.0.step_order)

first_step_fires :
    orders_sent (due_escalations policies channels (minutes 6) (outage ∷ [])).1 ≡ 1 ∷ []
unfolding due_escalations escalate_rows policy_of enabled_policy escalate climb deliver_step
first_step_fires = refl

both_steps_fire :
    orders_sent (due_escalations policies channels (minutes 40) (outage ∷ [])).1 ≡ 1 ∷ 2 ∷ []
unfolding due_escalations escalate_rows policy_of enabled_policy escalate climb deliver_step
both_steps_fire = refl

ladder-IsLadder : IsLadder ladder
ladder-IsLadder = omega arith

abbrev start : Timeline ℕ
start = record { events = outage ∷ []; next_id = 51 }

abbrev night : List (Op ℕ)
night =
    tick policies channels (minutes 6)
    ∷ tick policies channels (minutes 7)
    ∷ opens 2 3 "db" "down" Severity.high none (minutes 8)
    ∷ tick policies channels (minutes 40)
    ∷ acks 50 3 3 (minutes 41)
    ∷ tick policies channels (minutes 90)
    ∷ []

night_sends :
    map {B = ℕ × ℕ} (λ d. (d.0.problem_id, d.0.step_order)) (run night start).1
    ≡ (50, 1) ∷ (50, 2) ∷ (51, 1) ∷ (51, 2) ∷ []
unfolding run perform due_escalations escalate_rows policy_of enabled_policy escalate climb
    deliver_step open_event acknowledge
night_sends = refl

start-WellNumbered : WellNumbered start
start-WellNumbered = record { distinct = (tt, tt); below = omega arith }

run-Unrepeated_example : Unrepeated (run night start).1
run-Unrepeated_example = run-Unrepeated night start start-WellNumbered

abbrev mail_step : EscalationStepCreate
mail_step = record { step_order = 1; delay_minutes = 5; channel_id = 11; action_command = none }

abbrev hook_step : EscalationStepCreate
hook_step = record {
  step_order = 2;
  delay_minutes = 30;
  channel_id = 12;
  action_command = some "restart";
}

channels-Distinct : Distinct (λ (c : NotificationChannel). c.id) channels
channels-Distinct = omega arith

abbrev silent_step : EscalationStepCreate
silent_step = record mail_step { action_command = some "" }

empty_command_lost_example :
    (validate_channels channels 3 (silent_step ∷ []) ≡ none)
    × (deliver_step channels (minutes 40) outage (step_row 1 silent_step) ≡ [])
empty_command_lost_example =
    empty_command_lost channels mail silent_step 1 (minutes 40) outage channels-Distinct
      (Memᴰ.head refl) refl refl refl

abbrev payload : EscalationPolicyCreate
payload = record { name = "on call"; is_enabled = true; steps = hook_step ∷ mail_step ∷ [] }
