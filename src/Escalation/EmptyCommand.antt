-- ===== src/Escalation/EmptyCommand.antt =====
-- A command that is the empty text, in the check of app/api/routes/escalations.py and in the delivery
-- of app/core/services/escalation_service.py.
use ghostmon.Base.{
  ℕ, ◌≡◌, true, none, some, List, [], ◌∷◌, Memᴰ, arith, elem, Distinct, find-Distinct,
}
use ghostmon.Model.Problem.{ProblemEvent}
use ghostmon.Model.Channel.{NotificationChannel, ChannelType}
use ghostmon.Escalation.{deliver_step}
use ghostmon.Escalation.Accepted.{channel_key}
use ghostmon.Escalation.Policies.{
  EscalationStepCreate, channels_owned_by, validate_channels, step_row,
}

owned_elem :
    (channels : List NotificationChannel) (c : NotificationChannel) (ids : List ℕ)
    → Memᴰ c channels
    → elem c.id ids ≡ true
    → elem c.id (channels_owned_by channels c.owner_id ids) ≡ true
unfolding channels_owned_by
owned_elem [] c ids m e = elim m [ ]
owned_elem (x ∷ xs) c ids (Memᴰ.head h) e = ground (arith, h)
owned_elem (x ∷ xs) c ids (Memᴰ.tail m) e = ground (arith, owned_elem xs c ids m e)

-- A one-step payload for an email channel of the owner whose command is the empty text is accepted,
-- and no problem at any time gets a delivery from that step, the channels being under different ids.
pub empty_command_lost :
    {F : Type 0} (channels : List NotificationChannel) (c : NotificationChannel)
    (s : EscalationStepCreate) (i now : ℕ) (p : ProblemEvent F)
    → Distinct channel_key channels
    → Memᴰ c channels
    → c.kind ≡ ChannelType.email
    → s.channel_id ≡ c.id
    → s.action_command ≡ some ""
    → (validate_channels channels c.owner_id (s ∷ []) ≡ none)
      × (deliver_step channels now p (step_row i s) ≡ [])
unfolding validate_channels deliver_step
empty_command_lost channels c s i now p keys m mail target empty = (
  rw (empty, target) (rw (owned_elem channels c (c.id ∷ []) m (ground arith))),
  rw target (rw (find-Distinct channel_key channels keys m) (ground arith)),
)
