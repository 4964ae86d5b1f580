-- ===== src/Accounts/Checked.antt =====
-- What a login and a request have checked (app/core/services/user_service.py, app/core/security/tokens.py,
-- app/api/deps/auth.py).
use ghostmon.Base.{
  ℕ, ◌≤◌, ◌≡◌, ◌/◌, refl, sym, ap, ◌∙◌, Bool, true, false, ◌||◌, not, String, Option, none, some,
  List, ◌==◌, str_eq, subst, ==→eq, eq_iff, if◌then◌else◌, is_set, ok, Memᴰ, Bool-cases,
  Option-cases, inl, inr, arith, call_returned, ok_inj, some_inj, find-mem,
}
use ghostmon.Model.User.{User, AuthProvider, local}
use ghostmon.Accounts.{
  Secrecy, Jwt, IsJwt, Claims, get_by_id, get_by_email, password_valid, if_active,
  authenticate_local, create_access_token, decode_token, active_user, user_of_claims,
  get_current_user, login, is_local,
}
use ghostmon.Accounts.Tokens.{has_hash}

is_local-inv : (p : AuthProvider) → is_local p ≡ true → p ≡ local
is_local-inv local h = refl
is_local-inv AuthProvider.oidc h = cc h

module _ {ℓ} {A : Type ℓ} {a b : A} where
  when_inv : (t : Bool) → (if t then some a else none) ≡ some b → (t ≡ true) × (a ≡ b)
  when_inv true h = (refl, some_inj h)
  when_inv false h = cc h

  unless_inv : (t : Bool) → (if t then none else some a) ≡ some b → (t ≡ false) × (a ≡ b)
  unless_inv true h = cc h
  unless_inv false h = (refl, some_inj h)

if_active-inv :
    (valid : Bool) (o : Option User) {user : User}
    → if_active valid o ≡ some user
    → (o ≡ some user) × (valid ≡ true) × (user.is_active ≡ true)
unfolding if_active
if_active-inv valid none h = cc h
if_active-inv valid (some u) {user} h =
    let (kept, same) = unless_inv (not valid || not u.is_active) h in
    (
      ap some same,
      ground (arith, kept),
      subst (λ (v : User). v.is_active ≡ true) same (ground (arith, kept)),
    )

pub active_user-inv :
    (o : Option User) {user : User}
    → active_user o ≡ some user
    → (o ≡ some user) × (user.is_active ≡ true)
unfolding active_user
active_user-inv none h = cc h
active_user-inv (some u) {user} h =
    let (kept, same) = when_inv u.is_active h in
    (ap some same, subst (λ (v : User). v.is_active ≡ true) same kept)

module _ (c : Secrecy) where
  password_valid-inv :
      (password : String) (user : User)
      → password_valid c password (some user) ≡ ok true
      → (user.auth_provider ≡ local)
        × (hash : String) × (user.password_hash ≡ some hash)
        × (c.verify hash password ≡ ok true)
  unfolding password_valid
  password_valid-inv password user h = elim (Bool-cases (is_local user.auth_provider)) [
    | inr e ↦ cc (rw (password_valid, e) at h)
    | inl e ↦ elim (Option-cases user.password_hash) [
      | inl e' ↦ cc (rw (password_valid, e, e') at h)
      | inr (hash, e') ↦ elim (Bool-cases (is_set (some hash))) [
        | inl filled ↦
            (is_local-inv user.auth_provider e, hash, e', (rw (password_valid, e, e', filled) at h))
        | inr empty ↦ cc (rw (password_valid, e, e', empty) at h)
      ]
    ]
  ]

  authenticate_local-inv :
      (email password : String) (us : List User) {user : User}
      → authenticate_local c email password us ≡ ok (some user)
      → (get_by_email c email us ≡ some user)
        × (password_valid c password (some user) ≡ ok true)
        × (user.is_active ≡ true)
  unfolding authenticate_local
  authenticate_local-inv email password us {user} h =
      let o = get_by_email c email us in
      let (valid, checked, kept) =
        call_returned (password_valid c password o) (λ valid. ok (if_active valid o)) h in
      let (same, passed, active) = if_active-inv valid o (ok_inj kept) in
      (
        same,
        subst (λ z. password_valid c password z ≡ ok true) same (checked ∙ ap ok passed),
        active,
      )

module _ (c : Secrecy) (j : Jwt) where
  -- Where a login gives a token, its user is in the table under the email in lower case, is active and
  -- local, the password verifies against the hash of that row, and the token is the one created for
  -- the id of that row.
  pub login-authenticated :
      (ttl now : ℕ) (email password : String) (us : List User) {token : String}
      → login c j ttl email password now us ≡ ok (some token)
      → (user : User) × Memᴰ user us
        × (user.email ≡ c.lower email)
        × (user.is_active ≡ true)
        × (user.auth_provider ≡ local)
        × ((hash : String) × (user.password_hash ≡ some hash) × (c.verify hash password ≡ ok true))
        × (token ≡ create_access_token c j ttl user.id now)
  unfolding login get_by_email
  login-authenticated ttl now email password us {token} h =
      let (found, checked, given) = call_returned (authenticate_local c email password us) _ h in
      elim (Option-cases found) [
        | inl e ↦ cc (rw e at given)
        | inr (user, e) ↦
            let (row, valid, active) =
              authenticate_local-inv c email password us (checked ∙ ap ok e) in
            let (member, named) = find-mem (λ (u : User). str_eq u.email (c.lower email)) us row in
            let (kind, hash, has_hash, verified) = password_valid-inv c password user valid in
            (
              user,
              member,
              (eq_iff user.email (c.lower email)).0 named,
              active,
              kind,
              (hash, has_hash, verified),
              some_inj (ok_inj (sym (rw e at given))),
            )
      ]

  decode_token-inv :
      (token : String) (now : ℕ) {claims : Claims}
      → decode_token c j token now ≡ some claims
      → (j.decode token ≡ some claims) × (j.validate (now / 1_000_000) claims ≡ true)
  unfolding decode_token
  decode_token-inv token now h = elim (Option-cases (j.decode token)) [
    | inl e ↦ cc (rw (decode_token, e) at h)
    | inr (read, e) ↦
        let (valid, same) =
          when_inv (j.validate (now / 1_000_000) read) (rw (decode_token, e) at h) in
        (e ∙ ap some same, subst (λ (z : Claims). j.validate (now / 1_000_000) z ≡ true) same valid)
  ]

  user_of_claims-inv :
      (claims : Claims) (us : List User) {user : User}
      → user_of_claims c j claims us ≡ some user
      → ((sub : String) × (claims.sub ≡ some sub) × (c.parse_uuid sub ≡ some user.id))
        × Memᴰ user us
        × (user.is_active ≡ true)
  unfolding user_of_claims get_by_id
  user_of_claims-inv claims us {user} h = elim (Option-cases claims.sub) [
    | inl e ↦ cc (rw (user_of_claims, e) at h)
    | inr (sub, e) ↦ elim (Bool-cases (is_set (some sub))) [
      | inr empty ↦ cc (rw (user_of_claims, e, empty) at h)
      | inl filled ↦ elim (Option-cases (c.parse_uuid sub)) [
        | inl e' ↦ cc (rw (user_of_claims, e, filled, e') at h)
        | inr (id, e') ↦
            let (found, active) =
              active_user-inv (get_by_id id us) (rw (user_of_claims, e, filled, e') at h) in
            let (member, same) = find-mem (λ (u : User). u.id == id) us found in
            ((sub, e, e' ∙ ap some (sym (==→eq user.id id same))), member, active)
      ]
    ]
  ]

  -- The user of a request is an active row of the table, and the token is one that the library reads,
  -- with a subject that is the text of that row's id and an expiry that the time of the request, in
  -- whole seconds, has not passed.
  pub get_current_user-unexpired :
      IsJwt j
      → (token : String) (now : ℕ) (us : List User) {user : User}
      → get_current_user c j token now us ≡ some user
      → (claims : Claims) × (j.decode token ≡ some claims)
        × ((e : ℕ) × (claims.exp ≡ some e) × (now / 1_000_000 ≤ e))
        × ((sub : String) × (claims.sub ≡ some sub) × (c.parse_uuid sub ≡ some user.id))
        × Memᴰ user us
        × (user.is_active ≡ true)
  unfolding get_current_user
  get_current_user-unexpired signed token now us {user} h =
      elim (Option-cases (decode_token c j token now)) [
        | inl e ↦ cc (rw (get_current_user, e) at h)
        | inr (claims, e) ↦
            let (read, valid) = decode_token-inv token now e in
            let (sub, member, active) =
              user_of_claims-inv claims us (rw (get_current_user, e) at h) in
            (claims, read, signed.unexpired (now / 1_000_000) claims valid, sub, member, active)
      ]
