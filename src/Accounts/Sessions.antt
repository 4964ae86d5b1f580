-- ===== src/Accounts/Sessions.antt =====
-- From an account to the user of a request (app/core/services/user_service.py, app/api/routes/auth.py,
-- app/api/deps/auth.py).
use ghostmon.Base.{
  ℕ, ◌+◌, ◌≤◌, ◌<◌, ◌≡◌, ◌/◌, refl, sym, true, String, Option, none, some, List, [], ◌∷◌, ◌++◌,
  ◌==◌, str_eq, is_set_filled, minutes, ok, ◌>>=◌, All, Option-cases, inl, inr, arith, ok_inj,
  str_eq_refl, ==_refl, find-append,
}
use ghostmon.Model.User.{User}
use ghostmon.Accounts.{
  Secrecy, IsSecrecy, Jwt, IsJwt, Claims, Users, UserCreate, get_by_id, get_by_email, local_user,
  create_local, password_valid, if_active, authenticate_local, create_access_token, decode_token,
  active_user, user_of_claims, get_current_user, login,
}

-- every UUID in the table was drawn before the next one
pub record Fresh (db : Users) : Type 0 where
  pub below : All (λ (u : User). u.id < db.next_id) db.users

find_fresh : (n : ℕ) (us : List User) → All (λ (u : User). u.id < n) us → get_by_id n us ≡ none
unfolding get_by_id
find_fresh n [] h = refl
find_fresh n (u ∷ us) h = ground (arith, h.0, find_fresh n us h.1)

module _ (c : Secrecy) (salt : ℕ) (payload : UserCreate) (db : Users) where
  create_local-inv :
      {user : User}
      → (create_local c salt payload db).0 ≡ ok user
      → (user ≡ local_user c db.next_id salt payload)
        × ((create_local c salt payload db).1.users
            ≡ db.users ++ local_user c db.next_id salt payload ∷ [])
        × (get_by_email c payload.email db.users ≡ none)
  unfolding create_local
  create_local-inv {user} h = elim (Option-cases (get_by_email c payload.email db.users)) [
    | inl e ↦ rw e (sym (ok_inj (rw e at h)), refl, refl)
    | inr (u, e) ↦ cc (rw e at h)
  ]

  get_by_email-created :
      get_by_email c payload.email db.users ≡ none
      → get_by_email c payload.email (db.users ++ local_user c db.next_id salt payload ∷ [])
        ≡ some (local_user c db.next_id salt payload)
  unfolding get_by_email local_user
  get_by_email-created h =
      rw
        (
          find-append (λ (u : User). str_eq u.email (c.lower payload.email)) db.users
              (local_user c db.next_id salt payload),
          h,
          str_eq_refl (c.lower payload.email),
        )
        refl

  get_by_id-created :
      Fresh db
      → get_by_id db.next_id (db.users ++ local_user c db.next_id salt payload ∷ [])
        ≡ some (local_user c db.next_id salt payload)
  unfolding get_by_id local_user
  get_by_id-created fresh =
      rw
        (
          find-append (λ (u : User). u.id == db.next_id) db.users
              (local_user c db.next_id salt payload),
          find_fresh db.next_id db.users fresh.below,
          ==_refl db.next_id,
        )
        refl

  if_active-created :
      IsSecrecy c
      → (do
        valid ← password_valid c payload.password (some (local_user c db.next_id salt payload))
        ok (if_active valid (some (local_user c db.next_id salt payload))))
        ≡ ok (some (local_user c db.next_id salt payload))
  unfolding local_user password_valid if_active
  if_active-created safe =
      rw
        (
          password_valid,
          is_set_filled _ (safe.hash-filled salt payload.password),
          safe.verify-hash salt payload.password,
        )
        refl

  authenticate_local-created :
      IsSecrecy c
      → get_by_email c payload.email db.users ≡ none
      → authenticate_local c payload.email payload.password
          (db.users ++ local_user c db.next_id salt payload ∷ [])
        ≡ ok (some (local_user c db.next_id salt payload))
  unfolding authenticate_local
  authenticate_local-created safe h = rw (get_by_email-created h) (if_active-created safe)

module _ (c : Secrecy) (j : Jwt) (safe : IsSecrecy c) (signed : IsJwt j) where
  decode_token-created :
      (ttl now later id : ℕ)
      → now ≤ later
      → later ≤ now + minutes ttl
      → decode_token c j (create_access_token c j ttl id now) later
        ≡ some (record {
          sub = some (c.show_uuid id);
          iat = some (now / 1_000_000);
          exp = some ((now + minutes ttl) / 1_000_000);
        })
  unfolding decode_token create_access_token
  decode_token-created ttl now later id h h' =
      let claims : Claims = record {
        sub = some (c.show_uuid id);
        iat = some (now / 1_000_000);
        exp = some ((now + minutes ttl) / 1_000_000);
      } in
      let first : now / 1_000_000 ≤ later / 1_000_000 = omega arith in
      let last : later / 1_000_000 ≤ (now + minutes ttl) / 1_000_000 = omega arith in
      rw
        (
          decode_token,
          signed.decode-encode claims,
          signed.accepts (later / 1_000_000) (now / 1_000_000) ((now + minutes ttl) / 1_000_000)
              (some (c.show_uuid id)) first last,
        )
        refl

  user_of_claims-created :
      (id : ℕ) (iat exp : Option ℕ) (us : List User) {user : User}
      → get_by_id id us ≡ some user
      → user.is_active ≡ true
      → user_of_claims c j (record { sub = some (c.show_uuid id); iat = iat; exp = exp }) us
        ≡ some user
  unfolding user_of_claims active_user
  user_of_claims-created id iat exp us found active =
      rw (user_of_claims, is_set_filled _ (safe.show-filled id), safe.parse-show id, found, active)
        refl

  get_current_user-created :
      (ttl now later id : ℕ) (us : List User) {user : User}
      → now ≤ later
      → later ≤ now + minutes ttl
      → get_by_id id us ≡ some user
      → user.is_active ≡ true
      → get_current_user c j (create_access_token c j ttl id now) later us ≡ some user
  unfolding get_current_user
  get_current_user-created ttl now later id us h h' found active =
      rw (get_current_user, decode_token-created ttl now later id h h')
        (user_of_claims-created id (some (now / 1_000_000)) (some ((now + minutes ttl) / 1_000_000))
          us found active)

  local_user-active :
      (salt : ℕ) (payload : UserCreate) (db : Users)
      → (local_user c db.next_id salt payload).is_active ≡ true
  unfolding local_user
  local_user-active salt payload db = refl

  login-created :
      (salt ttl now : ℕ) (payload : UserCreate) (db : Users)
      → ok (some (create_access_token c j ttl (local_user c db.next_id salt payload).id now))
        ≡ ok (some (create_access_token c j ttl db.next_id now))
  unfolding local_user
  login-created salt ttl now payload db = refl

  -- A new local account that the table takes, its UUIDs drawn in order, can log in with its email and
  -- password as given, at any time, and the token names that user until the lifetime of the settings is
  -- over, the last instant included.
  pub create_local-session :
      (salt ttl now later : ℕ) (payload : UserCreate) (db : Users) {user : User}
      → Fresh db
      → (create_local c salt payload db).0 ≡ ok user
      → now ≤ later
      → later ≤ now + minutes ttl
      → (token : String) × (login c j ttl payload.email payload.password now
            (create_local c salt payload db).1.users
          ≡ ok (some token))
        × (get_current_user c j token later (create_local c salt payload db).1.users ≡ some user)
  unfolding login
  create_local-session salt ttl now later payload db {user} fresh h from until =
      let (same, rows, absent) = create_local-inv c salt payload db h in
      rw (rows, same)
        (
          create_access_token c j ttl db.next_id now,
          rw (login, authenticate_local-created c salt payload db safe absent)
              (login-created salt ttl now payload db),
          get_current_user-created ttl now later db.next_id _ from until
              (get_by_id-created c salt payload db fresh) (local_user-active salt payload db),
        )
