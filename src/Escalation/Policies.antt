-- ===== src/Escalation/Policies.antt =====
-- Creating and replacing policies: the schema of app/core/schemas/escalation.py, the check of the
-- channels in app/api/routes/escalations.py, and `create` and `replace` of the service.
use ghostmon.Base.{
  ℕ, Bool, true, false, ◌&&◌, not, String, Option, none, some, List, [], ◌∷◌, map, leb, suc, ◌==◌,
  if◌then◌else◌, filterb, elem, find, length_in, max_length, is_set,
}
use ghostmon.Model.Channel.{NotificationChannel, ChannelType}
use ghostmon.Model.Escalation.{EscalationStep, EscalationPolicy}
use ghostmon.Escalation.{is_webhook}

pub record EscalationStepCreate : Type 0 where
  pub step_order : ℕ
  pub delay_minutes : ℕ
  pub channel_id : ℕ
  pub action_command : Option String

pub record EscalationPolicyCreate : Type 0 where
  pub name : String
  pub is_enabled : Bool
  pub steps : List EscalationStepCreate

-- the bounds of the fields of a step
abbrev pub step_fits : EscalationStepCreate → Bool
step_fits s =
    leb 1 s.step_order
    && leb s.step_order 100
    && leb s.delay_minutes 10080
    && max_length 500 s.action_command

abbrev pub all_fit : List EscalationStepCreate → Bool
all_fit [] = true
all_fit (s ∷ ss) = step_fits s && all_fit ss

-- `len(set(orders)) == len(orders)`
abbrev pub orders_unique : List EscalationStepCreate → Bool
orders_unique [] = true
orders_unique (s ∷ ss) =
    not (elem s.step_order (map (λ (t : EscalationStepCreate). t.step_order) ss))
    && orders_unique ss

abbrev pub is_empty : List EscalationStepCreate → Bool
is_empty [] = true
is_empty (s ∷ ss) = false

-- whether the schema accepts the payload
unfoldable pub is_valid_policy : EscalationPolicyCreate → Bool
is_valid_policy payload =
    length_in 1 255 payload.name
    && not (is_empty payload.steps)
    && all_fit payload.steps
    && orders_unique payload.steps

-- the two answers 422
pub data ChannelError : Type 0 where
  unknown_channels : List ℕ → ChannelError
  not_webhook : ChannelError

abbrev pub wanted_channels : List EscalationStepCreate → List ℕ
wanted_channels = map (λ s. s.channel_id)

-- `channels_owned_by`
unfoldable pub channels_owned_by : List NotificationChannel → ℕ → List ℕ → List ℕ
channels_owned_by channels owner_id ids =
    map (λ (c : NotificationChannel). c.id)
      (filterb (λ c. c.owner_id == owner_id && elem c.id ids) channels)

-- `channel_types`, as the lookup in the dictionary
unfoldable pub channel_types : List NotificationChannel → ℕ → List ℕ → ℕ → Option ChannelType
channel_types channels owner_id ids cid =
    elim (find (λ (c : NotificationChannel). c.id == cid && c.owner_id == owner_id && elem c.id ids)
      channels) [ none ↦ none | some c ↦ some c.kind ]

abbrev pub webhook_type : Option ChannelType → Bool
webhook_type none = false
webhook_type (some kind) = is_webhook kind

abbrev pub first_error : List ℕ → List ℕ → Option ChannelError
first_error (m ∷ ms) non_webhook = some (unknown_channels (m ∷ ms))
first_error [] (n ∷ ns) = some not_webhook
first_error [] [] = none

-- `_validate_channels`: none is acceptance
unfoldable pub validate_channels :
    List NotificationChannel → ℕ → List EscalationStepCreate → Option ChannelError
unfolding channels_owned_by channel_types
validate_channels channels owner_id steps =
    let wanted = wanted_channels steps in
    let owned = channels_owned_by channels owner_id wanted in
    let missing = filterb (λ k. not (elem k owned)) wanted in
    let remediation = wanted_channels (filterb (λ s. is_set s.action_command) steps) in
    let types = channel_types channels owner_id remediation in
    first_error missing (filterb (λ k. not (webhook_type (types k))) remediation)

-- one step of the payload as a row with the id `i`
abbrev pub step_row : ℕ → EscalationStepCreate → EscalationStep
step_row i s = record {
  id = i;
  step_order = s.step_order;
  delay_minutes = s.delay_minutes;
  channel_id = s.channel_id;
  action_command = s.action_command;
}

-- `order_by="EscalationStep.step_order"`
unfoldable pub insert_step : EscalationStep → List EscalationStep → List EscalationStep
insert_step s [] = s ∷ []
insert_step s (t ∷ ts) =
    let later = insert_step s ts in if leb s.step_order t.step_order then s ∷ t ∷ ts else t ∷ later

-- the rows of the payload's steps, numbered from `i` and loaded in order
unfoldable pub step_rows : ℕ → List EscalationStepCreate → List EscalationStep
unfolding insert_step
step_rows i [] = []
step_rows i (s ∷ ss) = insert_step (step_row i s) (step_rows (suc i) ss)

-- `create`: the policy as it is reloaded
unfoldable pub create_policy : ℕ → ℕ → ℕ → ℕ → EscalationPolicyCreate → EscalationPolicy
unfolding step_rows
create_policy id first_step_id created_at owner_id payload = record {
  id = id;
  owner_id = owner_id;
  name = payload.name;
  is_enabled = payload.is_enabled;
  created_at = created_at;
  steps = step_rows first_step_id payload.steps;
}

-- `replace`: the same row with the name, the switch and the steps of the payload
unfoldable pub replace_policy : ℕ → EscalationPolicy → EscalationPolicyCreate → EscalationPolicy
unfolding step_rows
replace_policy first_step_id policy payload = record policy {
  name = payload.name;
  is_enabled = payload.is_enabled;
  steps = step_rows first_step_id payload.steps;
}
