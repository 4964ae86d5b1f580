-- ===== src/Secrets/Sealed.antt =====
-- Encrypting a field, and what a configuration that was sealed delivers to.
use Prim.Native.String.{String, [], ◌∷◌, ◌++◌}
use Prim.Native.String.append
use ghostmon.Base.{
  ℕ, ◌+◌, ◌≡◌, refl, true, false, ◌||◌, Option, none, some, str_eq, eq_iff, arith, Bool-cases,
  Option-cases, inl, inr, ==_refl, ap, subst,
}
use ghostmon.Model.Channel.{ChannelConfig}
use ghostmon.Secrets.{
  Fernet, IsFernet, secret_prefix, redacted, after_prefix, is_encrypted, encrypt_secret,
  decrypt_secret, seal_secret, seal_target, seal_channel_config,
}

after_prefix-append : (p t : String) → after_prefix p (p ++ t) ≡ some t
unfolding after_prefix
after_prefix-append [] t = ap some (append.nil t)
after_prefix-append (c ∷ p) t = rw (append.cons c p t, ==_refl) (after_prefix-append p t)

-- a text that is encrypted is neither empty nor the placeholder
pub encrypted-proper :
    (s : String) → is_encrypted s ≡ true → (str_eq s "" ≡ false) × (str_eq s redacted ≡ false)
unfolding is_encrypted after_prefix
encrypted-proper s e = (
  elim (Bool-cases (str_eq s "")) [
    | inr other ↦ other
    | inl same ↦ cc (subst (λ z. is_encrypted z ≡ true) ((eq_iff s "").0 same) e)
  ],
  elim (Bool-cases (str_eq s redacted)) [
    | inr other ↦ other
    | inl same ↦ cc (subst (λ z. is_encrypted z ≡ true) ((eq_iff s redacted).0 same) e)
  ],
)

module _ (f : Fernet) where
  pub encrypt_secret-encrypted : (n : ℕ) (s : String) → is_encrypted (encrypt_secret f n s) ≡ true
  unfolding encrypt_secret is_encrypted
  encrypt_secret-encrypted n s = elim (Bool-cases (is_encrypted s)) [
    | inl e ↦ rw (e, encrypt_secret) e
    | inr e ↦ rw (e, encrypt_secret) (rw (after_prefix-append secret_prefix (f.encrypt n s)) refl)
  ]

  encrypted-kept : (n : ℕ) (s : String) → is_encrypted s ≡ true → encrypt_secret f n s ≡ s
  unfolding encrypt_secret
  encrypted-kept n s e = ground (arith, e)

  encrypt_secret_again :
      (n k : ℕ) (s : String) → encrypt_secret f k (encrypt_secret f n s) ≡ encrypt_secret f n s
  encrypt_secret_again n k s =
      encrypted-kept k (encrypt_secret f n s) (encrypt_secret-encrypted n s)

  pub seal_secret_again :
      (n k : ℕ) (v : Option String) → seal_secret f k (seal_secret f n v) ≡ seal_secret f n v
  unfolding seal_secret
  seal_secret_again n k none = refl
  seal_secret_again n k (some s) = elim (Bool-cases (str_eq s "" || str_eq s redacted)) [
    | inl dropped ↦ rw (dropped, seal_secret) refl
    | inr kept ↦
        let proper = encrypted-proper (encrypt_secret f n s) (encrypt_secret-encrypted n s) in
        rw (kept, seal_secret) (rw (proper.0, proper.1) (ap some (encrypt_secret_again n k s)))
  ]

  seal_target_again :
      (n k : ℕ) (v : Option String) → seal_target f k (seal_target f n v) ≡ seal_target f n v
  unfolding seal_target
  seal_target_again n k none = refl
  seal_target_again n k (some s) = elim (Bool-cases (str_eq s "")) [
    | inl empty ↦ rw (empty, seal_target) (rw empty refl)
    | inr kept ↦
        let proper = encrypted-proper (encrypt_secret f n s) (encrypt_secret-encrypted n s) in
        rw (kept, seal_target) (rw proper.0 (ap some (encrypt_secret_again n k s)))
  ]

  -- Sealing a configuration that is sealed already changes nothing, whatever the random bytes.
  pub seal_channel_config_again :
      (n k : ℕ) (config : ChannelConfig)
      → seal_channel_config f k (seal_channel_config f n config) ≡ seal_channel_config f n config
  unfolding seal_channel_config
  seal_channel_config_again n k config =
      rw
        (
          seal_secret_again n k config.secret,
          seal_target_again (n + 1) (k + 1) config.url,
          seal_target_again (n + 2) (k + 2) config.to,
        )
        refl

  module _ (laws : IsFernet f) where
    -- A secret that does not look encrypted is decrypted to itself after it was encrypted.
    pub decrypt-encrypt :
        (n : ℕ) (s : String) → is_encrypted s ≡ false → decrypt_secret f (encrypt_secret f n s) ≡ s
    unfolding decrypt_secret encrypt_secret
    decrypt-encrypt n s plain =
        rw (plain, encrypt_secret)
          (rw (after_prefix-append secret_prefix (f.encrypt n s), laws.decrypt-encrypt n s) refl)

  pub plain-kept : (s : String) → is_encrypted s ≡ false → decrypt_secret f s ≡ s
  unfolding decrypt_secret is_encrypted
  plain-kept s plain = elim (Option-cases (after_prefix secret_prefix s)) [
    | inl e ↦ rw (e, decrypt_secret) refl
    | inr (t, e) ↦ cc (e, plain)
  ]
