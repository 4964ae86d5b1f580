-- ===== src/Secrets/Edited.antt =====
-- Where a channel delivers to after it was created, and after it was read and submitted back.
use Prim.Native.String.{String}
use ghostmon.Base.{
  ℕ, ◌+◌, ◌≡◌, refl, Bool, true, false, not, Option, none, some, str_eq, is_set, arith, Bool-cases,
  Option-cases, inl, inr, ◌∙◌,
}
use ghostmon.Model.Channel.{ChannelConfig, ChannelType}
use ghostmon.Secrets.{
  Fernet, IsFernet, is_redacted, is_encrypted, Sent, mail, post, delivery_error, encrypt_secret,
  decrypt_target, seal_secret, seal_target, seal_channel_config, update_config, protect_config,
  deliver, signing_secret,
}
use ghostmon.Secrets.Sealed.{
  encrypted-proper, encrypt_secret-encrypted, decrypt-encrypt, plain-kept, seal_secret_again,
}

-- a field that is not stored encrypted
abbrev pub is_plain : Option String → Bool
is_plain none = true
is_plain (some s) = not (is_encrypted s)

-- a delivery, from the fields in clear that are not empty
abbrev send : ChannelType → Option String → Option String → Option String → Sent
send ChannelType.email none url secret = delivery_error
send ChannelType.email (some to) url secret = mail to
send ChannelType.webhook to none secret = delivery_error
send ChannelType.webhook to (some url) secret = post url secret

module _ (f : Fernet) where
  -- the fields of a configuration that a delivery reads, in clear
  deliver-send :
      (kind : ChannelType) (c : ChannelConfig)
      → deliver f kind c
        ≡ send kind (signing_secret f c.to) (signing_secret f c.url) (signing_secret f c.secret)
  unfolding deliver
  deliver-send ChannelType.email c = elim (Option-cases c.to) [
    | inl e ↦ rw (e, deliver) refl
    | inr (s, e) ↦ elim (Bool-cases (str_eq s "")) [
      | inl empty ↦ rw (e, deliver) (rw empty refl)
      | inr kept ↦ rw (e, deliver) (rw kept refl)
    ]
  ]
  deliver-send ChannelType.webhook c = elim (Option-cases c.url) [
    | inl e ↦ rw (e, deliver) refl
    | inr (s, e) ↦ elim (Bool-cases (str_eq s "")) [
      | inl empty ↦ rw (e, deliver) (rw empty refl)
      | inr kept ↦ rw (e, deliver) (rw kept refl)
    ]
  ]

  module _ (laws : IsFernet f) where
    sealed-clear :
        (n : ℕ) (v : Option String)
        → is_plain v ≡ true
        → signing_secret f (seal_target f n v) ≡ signing_secret f v
    unfolding seal_target
    sealed-clear n none plain = refl
    sealed-clear n (some s) plain = elim (Bool-cases (str_eq s "")) [
      | inl empty ↦ rw (empty, seal_target) (rw empty refl)
      | inr kept ↦
          let proper = encrypted-proper (encrypt_secret f n s) (encrypt_secret-encrypted f n s) in
          let clear : is_encrypted s ≡ false = ground (arith, plain) in
          rw (kept, seal_target)
            (rw (proper.0, decrypt-encrypt f laws n s clear, plain-kept f s clear) refl)
    ]

    sealed-clear_secret :
        (n : ℕ) (v : Option String)
        → is_plain v ≡ true
        → is_redacted v ≡ false
        → signing_secret f (seal_secret f n v) ≡ signing_secret f v
    unfolding seal_secret
    sealed-clear_secret n none plain other = refl
    sealed-clear_secret n (some s) plain other = elim (Bool-cases (str_eq s "")) [
      | inl empty ↦ rw (empty, seal_secret) refl
      | inr kept ↦
          let proper = encrypted-proper (encrypt_secret f n s) (encrypt_secret-encrypted f n s) in
          let clear : is_encrypted s ≡ false = ground (arith, plain) in
          rw (kept, other, seal_secret)
            (rw (proper.0, decrypt-encrypt f laws n s clear, plain-kept f s clear) refl)
    ]

    -- A channel delivers to the targets and with the secret of the configuration that it was created
    -- with, where no field looks encrypted and the secret is not the placeholder: encrypting the fields
    -- at rest changes no delivery.
    pub sealed_delivers :
        (n : ℕ) (kind : ChannelType) (config : ChannelConfig)
        → is_plain config.to ≡ true
        → is_plain config.url ≡ true
        → is_plain config.secret ≡ true
        → is_redacted config.secret ≡ false
        → deliver f kind (seal_channel_config f n config) ≡ deliver f kind config
    unfolding seal_channel_config
    sealed_delivers n kind config to url secret other =
        rw
          (
            deliver-send kind (seal_channel_config f n config),
            deliver-send kind config,
            sealed-clear (n + 2) config.to to,
            sealed-clear (n + 1) config.url url,
            sealed-clear_secret n config.secret secret other,
          )
          refl

    read-sealed :
        (n : ℕ) (v : Option String) → is_plain v ≡ true → decrypt_target f (seal_target f n v) ≡ v
    unfolding seal_target
    read-sealed n none plain = refl
    read-sealed n (some s) plain = elim (Bool-cases (str_eq s "")) [
      | inl empty ↦ rw (empty, seal_target) (rw empty refl)
      | inr kept ↦
          let proper = encrypted-proper (encrypt_secret f n s) (encrypt_secret-encrypted f n s) in
          rw (kept, seal_target)
            (rw (proper.0, decrypt-encrypt f laws n s (ground (arith, plain))) refl)
    ]

    -- what is stored when the owner submits what was read of a channel
    resubmitted :
        (n k : ℕ) (c : ChannelConfig)
        → is_plain c.to ≡ true
        → is_plain c.url ≡ true
        → update_config f k
            (seal_channel_config f n c)
            (protect_config f (seal_channel_config f n c))
          ≡ record {
            secret = seal_secret f n c.secret;
            url = seal_target f (k + 1) c.url;
            to = seal_target f (k + 2) c.to;
          }
    unfolding update_config seal_channel_config protect_config
    resubmitted n k c to url = elim (Bool-cases (is_set (seal_secret f n c.secret))) [
      | inl set ↦
          rw (read-sealed (n + 1) c.url url, read-sealed (n + 2) c.to to, set, update_config)
            (rw (seal_secret_again f n k c.secret) refl)
      | inr unset ↦
          rw (read-sealed (n + 1) c.url url, read-sealed (n + 2) c.to to, unset, update_config)
            (rw unset (rw (seal_secret_again f n k c.secret) refl))
    ]

    -- Where a channel was created with fields that do not look encrypted and a secret that is not the
    -- placeholder, reading it and submitting what was read as a change, in which the secret is the
    -- placeholder, leaves a channel that delivers to the same targets with the same secret.
    pub edited_delivers :
        (n k : ℕ) (kind : ChannelType) (config : ChannelConfig)
        → is_plain config.to ≡ true
        → is_plain config.url ≡ true
        → is_plain config.secret ≡ true
        → is_redacted config.secret ≡ false
        → deliver f kind (
            update_config f k
              (seal_channel_config f n config)
              (protect_config f (seal_channel_config f n config)))
          ≡ deliver f kind config
    edited_delivers n k kind config to url secret other = rw (resubmitted n k config to url) (
        rw (deliver-send kind config) (
          deliver-send kind _
          ∙ rw
              (
                sealed-clear (k + 2) config.to to,
                sealed-clear (k + 1) config.url url,
                sealed-clear_secret n config.secret secret other,
              )
              refl))
