-- ===== src/Secrets/Tests.antt =====
-- The theorems on secrets at a concrete channel.
use ghostmon.Base.{◌≡◌, refl, none, some}
use ghostmon.Model.Channel.{ChannelConfig, ChannelType}
use ghostmon.Secrets.{
  Fernet, IsFernet, is_encrypted, after_prefix, decrypt_secret, seal_channel_config, update_config,
  protect_config, deliver, redacted,
}
use ghostmon.Secrets.Edited.{sealed_delivers, edited_delivers}

-- a cipher whose tokens are the texts themselves
abbrev open_fernet : Fernet
open_fernet = record { encrypt = λ n s. s; decrypt = λ t. some t }

open_fernet-IsFernet : IsFernet open_fernet
open_fernet-IsFernet = record { decrypt-encrypt = λ n s. refl }

abbrev hook : ChannelConfig
hook = record { to = none; url = some "https://hook.test/a"; secret = some "hunter22" }

-- what is stored, and what the owner reads
stored_run :
    seal_channel_config open_fernet 0 hook
    ≡ record { to = none; url = some "enc:v1:https://hook.test/a"; secret = some "enc:v1:hunter22" }
unfolding seal_channel_config after_prefix
stored_run = refl

read_run :
    protect_config open_fernet (seal_channel_config open_fernet 0 hook)
    ≡ record hook { secret = some redacted }
unfolding seal_channel_config protect_config decrypt_secret after_prefix
read_run = refl

sealed_delivers_example :
    deliver open_fernet ChannelType.webhook (seal_channel_config open_fernet 0 hook)
    ≡ deliver open_fernet ChannelType.webhook hook
unfolding is_encrypted after_prefix
sealed_delivers_example =
    sealed_delivers open_fernet open_fernet-IsFernet 0 ChannelType.webhook hook refl refl refl refl

edited_delivers_example :
    deliver open_fernet ChannelType.webhook (
      update_config open_fernet 7
        (seal_channel_config open_fernet 0 hook)
        (protect_config open_fernet (seal_channel_config open_fernet 0 hook)))
    ≡ deliver open_fernet ChannelType.webhook hook
unfolding is_encrypted after_prefix
edited_delivers_example =
    edited_delivers open_fernet open_fernet-IsFernet 0 7 ChannelType.webhook hook refl refl refl
      refl
