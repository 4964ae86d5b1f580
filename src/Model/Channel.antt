-- ===== src/Model/Channel.antt =====
-- app/core/models/notification_channel.py: a channel, and the rows of the two link tables
use ghostmon.Base.{ℕ, String, Option, Bool}
use ghostmon.Model.Trigger.{Severity}

pub data ChannelType : Type 0 where
  email webhook : ChannelType

-- The keys of the JSON column that the code reads: "to", "url" and "secret".
pub record ChannelConfig : Type 0 where
  pub to : Option String
  pub url : Option String
  pub secret : Option String

pub record NotificationChannel : Type 0 where
  pub id : ℕ
  pub name : String
  pub kind : ChannelType  -- `type`
  pub config : ChannelConfig
  pub is_enabled : Bool
  pub min_severity : Severity
  pub owner_id : ℕ

-- a row of `monitor_channels` or `host_channels`: the monitor or host, and the channel
pub record ChannelLink : Type 0 where
  pub target_id : ℕ
  pub channel_id : ℕ
