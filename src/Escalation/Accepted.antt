-- ===== src/Escalation/Accepted.antt =====
-- What the check of a payload gives at the time of delivery, and the order of the stored ladder.
use ghostmon.Base.{ℕ}
use ghostmon.Model.Channel.{NotificationChannel}

abbrev pub channel_key : NotificationChannel → ℕ
channel_key c = c.id
