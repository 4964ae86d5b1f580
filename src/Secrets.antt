-- ===== src/Secrets.antt =====
-- app/core/security/field_crypto.py, and the configuration of channels at rest in
-- app/core/services/notification_channel_service.py and app/core/schemas/notification_channel.py.
pub mod Sealed
pub mod Edited
mod Tests
use Prim.Native.String.{String, [], ◌∷◌, ◌++◌}
use Prim.Native.Char.{code}
use ghostmon.Base.{
  ℕ, suc, ◌+◌, Bool, true, false, ◌&&◌, ◌||◌, not, Option, none, some, ◌==◌, str_eq, if◌then◌else◌,
  is_some, get_or, is_set, ◌≡◌,
}
use ghostmon.Model.Channel.{ChannelConfig, ChannelType}

-- What is read of cryptography's Fernet, under the key that the settings give. A token depends on the
-- random bytes that are drawn for it; `none` is InvalidToken.
pub record Fernet : Type 0 where
  pub encrypt : ℕ → String → String
  pub decrypt : String → Option String

-- What its documentation says: a token is decrypted to what it was made of.
pub record IsFernet (f : Fernet) : Type 0 where
  pub decrypt-encrypt : (n : ℕ) (s : String) → f.decrypt (f.encrypt n s) ≡ some s

abbrev pub secret_prefix : String
secret_prefix = "enc:v1:"

abbrev pub redacted : String
redacted = "__redacted__"

-- `value[len(prefix):]` where the value starts with the prefix
unfoldable pub after_prefix : String → String → Option String
after_prefix [] s = some s
after_prefix (c ∷ p) [] = none
after_prefix (c ∷ p) (d ∷ s) =
    let rest = after_prefix p s in if code c == code d then rest else none

unfoldable pub is_encrypted : String → Bool
is_encrypted value = is_some (after_prefix secret_prefix value)

abbrev pub is_redacted : Option String → Bool
is_redacted none = false
is_redacted (some s) = str_eq s redacted

-- What a delivery is sent to: an address, or a URL with the secret that signs the payload.
pub data Sent : Type 0 where
  mail : String → Sent
  post : String → Option String → Sent
  delivery_error : Sent

module _ (f : Fernet) where
  unfoldable pub encrypt_secret : ℕ → String → String
  unfolding is_encrypted
  encrypt_secret n plaintext =
      if is_encrypted plaintext then plaintext else secret_prefix ++ f.encrypt n plaintext

  unfoldable pub decrypt_secret : String → String
  unfolding after_prefix
  decrypt_secret value = elim (after_prefix secret_prefix value) [
    | none ↦ value
    | some token ↦ get_or (f.decrypt token) value
  ]

  -- the secret of a configuration, and one of its targets
  unfoldable pub seal_secret : ℕ → Option String → Option String
  unfolding encrypt_secret
  seal_secret n none = none
  seal_secret n (some s) =
      if str_eq s "" || str_eq s redacted then none else some (encrypt_secret n s)

  unfoldable pub seal_target : ℕ → Option String → Option String
  unfolding encrypt_secret
  seal_target n none = none
  seal_target n (some s) = if str_eq s "" then some s else some (encrypt_secret n s)

  -- `_seal_channel_config`; `n` numbers the tokens that are made
  unfoldable pub seal_channel_config : ℕ → ChannelConfig → ChannelConfig
  unfolding seal_secret seal_target
  seal_channel_config n config = record {
    secret = seal_secret n config.secret;
    url = seal_target (n + 1) config.url;
    to = seal_target (n + 2) config.to;
  }

  -- `update`: the configuration that is stored instead of `old`
  unfoldable pub update_config : ℕ → ChannelConfig → ChannelConfig → ChannelConfig
  unfolding seal_channel_config
  update_config n old new = seal_channel_config n (
      if (not (is_set new.secret) || is_redacted new.secret) && is_set old.secret
      then record new { secret = old.secret }
      else new)

  abbrev pub decrypt_target : Option String → Option String
  decrypt_target none = none
  decrypt_target (some s) = if str_eq s "" then some s else some (decrypt_secret s)

  -- `_protect_config`: what the owner reads
  unfoldable pub protect_config : ChannelConfig → ChannelConfig
  protect_config config = record {
    secret = if is_set config.secret then some redacted else config.secret;
    url = decrypt_target config.url;
    to = decrypt_target config.to;
  }

  abbrev pub signing_secret : Option String → Option String
  signing_secret none = none
  signing_secret (some s) = if str_eq s "" then none else some (decrypt_secret s)

  -- `_deliver`, up to the sending itself
  unfoldable pub deliver : ChannelType → ChannelConfig → Sent
  deliver ChannelType.email config = elim config.to [
    | none ↦ delivery_error
    | some to ↦ if str_eq to "" then delivery_error else mail (decrypt_secret to)
  ]
  deliver ChannelType.webhook config = elim config.url [
    | none ↦ delivery_error
    | some url ↦
        if str_eq url ""
        then delivery_error
        else post (decrypt_secret url) (signing_secret config.secret)
  ]
