-- ===== src/Escalation.antt =====
-- app/core/services/escalation_service.py: the escalation ladders of ongoing problems.
pub mod Climb
pub mod Deliveries
pub mod Rows
pub mod Accepted
pub mod EmptyCommand
pub mod Stored
pub mod Policies
pub mod Ladder
pub mod Runs
mod Tests
use ghostmon.Base.{
  ℕ, ◌+◌, Bool, true, false, ◌&&◌, ◌||◌, String, Option, none, some, List, [], ◌∷◌, ◌++◌, map, suc,
  ltb, leb, ◌==◌, if◌then◌else◌, is_some, not, filterb, find, minutes,
}
use ghostmon.Model.Trigger.{Severity}
use ghostmon.Model.Problem.{ProblemEvent}
use ghostmon.Model.Channel.{NotificationChannel, ChannelType}
use ghostmon.Model.Escalation.{EscalationStep, EscalationPolicy}
use ghostmon.Problems.{is_ongoing}
use ghostmon.Notifications.Events.{EscalationAlertEvent}

abbrev pub is_enabled_policy : ℕ → EscalationPolicy → Bool
is_enabled_policy owner_id p = p.owner_id == owner_id && p.is_enabled

-- `_enabled_policy`: the enabled policy of the owner that was created last
unfoldable pub enabled_policy : ℕ → List EscalationPolicy → Option EscalationPolicy
enabled_policy owner_id [] = none
enabled_policy owner_id (p ∷ ps) =
    let rest = enabled_policy owner_id ps in
    if is_enabled_policy owner_id p
    then (elim rest [
      | none ↦ some p
      | some q ↦ if ltb p.created_at q.created_at then some q else some p
    ])
    else rest

abbrev pub is_webhook : ChannelType → Bool
is_webhook ChannelType.webhook = true
is_webhook ChannelType.email = false

-- the event of a step, and the channel it goes to
abbrev pub Delivery : Type 0 → Type 0
Delivery F = EscalationAlertEvent F × NotificationChannel

abbrev pub step_channel : List NotificationChannel → EscalationStep → Option NotificationChannel
step_channel channels step = find (λ (c : NotificationChannel). c.id == step.channel_id) channels

module _ {F : Type 0} where
  abbrev pub escalation_event : ℕ → ProblemEvent F → EscalationStep → EscalationAlertEvent F
  escalation_event now problem step = record {
    problem_id = problem.id;
    subject = problem.subject;
    trigger_name = problem.trigger_name;
    severity = problem.severity;
    step_order = step.step_order;
    value = problem.value;
    started_at = problem.started_at;
    timestamp = now;
    action_command = step.action_command;
  }

  -- the delivery of one due step, if there is one: the channel exists, belongs to the problem's owner,
  -- is enabled, and is a webhook if the step is a remediation
  unfoldable pub deliver_to :
      ℕ → ProblemEvent F → EscalationStep → Option NotificationChannel → List (Delivery F)
  deliver_to now problem step none = []
  deliver_to now problem step (some channel) =
      if channel.owner_id == problem.owner_id && channel.is_enabled
      then (if is_some step.action_command && not (is_webhook channel.kind)
          then []
          else (escalation_event now problem step, channel) ∷ [])
      else []

  unfoldable pub deliver_step :
      List NotificationChannel → ℕ → ProblemEvent F → EscalationStep → List (Delivery F)
  unfolding deliver_to
  deliver_step channels now problem step = deliver_to now problem step (step_channel channels step)

  abbrev pub not_due : ℕ → ProblemEvent F → EscalationStep → Bool
  not_due now problem step = ltb now (problem.started_at + minutes step.delay_minutes)

  -- the loop over the steps: `continue` on an executed step, `break` on one that is not due
  unfoldable pub climb :
      List NotificationChannel
      → ℕ
      → ProblemEvent F
      → List EscalationStep
      → ProblemEvent F × List (Delivery F)
  climb channels now problem [] = (problem, [])
  climb channels now problem (step ∷ steps) =
      let skipped = climb channels now problem steps in
      let executed =
        climb channels now (record problem { escalated_step = step.step_order }) steps in
      if leb step.step_order problem.escalated_step
      then skipped
      else if not_due now problem step
      then (problem, [])
      else (executed.0, deliver_step channels now problem step ++ executed.1)

  -- `resolved_at IS NULL AND acknowledged_at IS NULL`
  abbrev pub is_waiting : ProblemEvent F → Bool
  is_waiting e = is_ongoing e && not (is_some e.acknowledged_at)

  -- one problem, under the policy of its owner
  unfoldable pub escalate :
      List NotificationChannel
      → ℕ
      → Option EscalationPolicy
      → ProblemEvent F
      → ProblemEvent F × List (Delivery F)
  escalate channels now none problem = (problem, [])
  escalate channels now (some policy) problem = climb channels now problem policy.steps

-- `policy_cache`
abbrev pub Cache : Type 0
Cache = List (ℕ × Option EscalationPolicy)

unfoldable pub cached : ℕ → Cache → Option (Option EscalationPolicy)
cached owner_id [] = none
cached owner_id ((o, p) ∷ rest) = if o == owner_id then some p else cached owner_id rest

-- the policy of an owner, and the cache that holds it afterwards
unfoldable pub policy_of : List EscalationPolicy → Cache → ℕ → Option EscalationPolicy × Cache
unfolding cached
policy_of policies cache owner_id = elim (cached owner_id cache) [
  | some p ↦ (p, cache)
  | none ↦ let p = enabled_policy owner_id policies in (p, (owner_id, p) ∷ cache)
]

module _ {F : Type 0} (policies : List EscalationPolicy) (channels : List NotificationChannel)
    (now : ℕ) where
  -- the loop over the problems, which the query selects from the table
  unfoldable pub escalate_rows :
      Cache → List (ProblemEvent F) → List (ProblemEvent F) × List (Delivery F)
  escalate_rows cache [] = ([], [])
  escalate_rows cache (problem ∷ problems) =
      let passed = escalate_rows cache problems in
      let (policy, cache') = policy_of policies cache problem.owner_id in
      let (problem', deliveries) = escalate channels now policy problem in
      let rest = escalate_rows cache' problems in
      if is_waiting problem
      then (problem' ∷ rest.0, deliveries ++ rest.1)
      else (problem ∷ passed.0, passed.1)

  -- `due_escalations`
  unfoldable pub due_escalations : List (ProblemEvent F) → List (ProblemEvent F) × List (Delivery F)
  due_escalations problems = escalate_rows [] problems
