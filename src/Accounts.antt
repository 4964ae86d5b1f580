-- ===== src/Accounts.antt =====
-- app/core/services/user_service.py, app/core/security/tokens.py and app/api/deps/auth.py: accounts,
-- access tokens, and the user of a request.
pub mod Tokens
pub mod Sessions
pub mod Checked
pub mod Samples
pub mod Held
pub mod Granted
pub mod Tests
use ghostmon.Base.{
  ℕ, suc, ◌+◌, ◌≤◌, ◌≡◌, ◌/◌, Bool, true, false, ◌&&◌, ◌||◌, not, String, Option, none, some, List,
  [], ◌∷◌, ◌++◌, map, ◌==◌, str_eq, if◌then◌else◌, find, is_some, is_set, get_or, minutes, Result,
  ok, raised, integrity_error, ◌>>=◌,
}
use ghostmon.Model.User.{User, AuthProvider, local, oidc}

-- What the libraries do: Python's `lower`, argon2 (a hash is drawn with a salt; a mismatch is false, and
-- another error is raised), and the hexadecimal form of a UUID.
pub record Secrecy : Type 0 where
  pub lower : String → String
  pub hash : ℕ → String → String
  pub verify : String → String → Result Bool
  pub show_uuid : ℕ → String
  pub parse_uuid : String → Option ℕ

-- the claims that are read (`type` is written and read nowhere); times are in seconds
pub record Claims : Type 0 where
  pub sub : Option String
  pub iat : Option ℕ
  pub exp : Option ℕ

-- joserfc under the key of the settings: `decode` is none for a JoseError, and `validate` is the
-- registry's, in which `exp` is essential.
pub record Jwt : Type 0 where
  pub encode : Claims → String
  pub decode : String → Option Claims
  pub validate : ℕ → Claims → Bool

-- What their documentation says.
pub record IsSecrecy (c : Secrecy) : Type 0 where
  pub verify-hash : (salt : ℕ) (s : String) → c.verify (c.hash salt s) s ≡ ok true
  pub hash-filled : (salt : ℕ) (s : String) → str_eq (c.hash salt s) "" ≡ false
  pub parse-show : (i : ℕ) → c.parse_uuid (c.show_uuid i) ≡ some i
  pub show-filled : (i : ℕ) → str_eq (c.show_uuid i) "" ≡ false

pub record IsJwt (j : Jwt) : Type 0 where
  pub decode-encode : (claims : Claims) → j.decode (j.encode claims) ≡ some claims
  pub unexpired :
      (now : ℕ) (claims : Claims)
      → j.validate now claims ≡ true
      → (e : ℕ) × (claims.exp ≡ some e) × (now ≤ e)
  pub accepts :
      (now iat exp : ℕ) (sub : Option String)
      → iat ≤ now
      → now ≤ exp
      → j.validate now (record { sub = sub; iat = some iat; exp = some exp }) ≡ true

-- the table, and the next UUID
pub record Users : Type 0 where
  pub users : List User
  pub next_id : ℕ

-- the payload as pydantic has validated it
pub record UserCreate : Type 0 where
  pub email : String
  pub full_name : Option String
  pub password : String

abbrev pub is_local : AuthProvider → Bool
is_local local = true
is_local oidc = false

unfoldable pub get_by_id : ℕ → List User → Option User
get_by_id user_id = find (λ (u : User). u.id == user_id)

-- the user of a request that is not refused
unfoldable pub active_user : Option User → Option User
active_user none = none
active_user (some user) = if user.is_active then some user else none

unfoldable pub if_active : Bool → Option User → Option User
if_active valid none = none
if_active valid (some user) = if not valid || not user.is_active then none else some user

abbrev pub has_subject : String → User → Bool
has_subject subject u = elim u.oidc_subject [ none ↦ false | some s ↦ str_eq s subject ]

-- the email of another row
unfoldable pub email_taken : ℕ → String → List User → Bool
email_taken id email users =
    is_some (find (λ (u : User). not (u.id == id) && str_eq u.email email) users)

module _ (c : Secrecy) where
  unfoldable pub get_by_email : String → List User → Option User
  get_by_email email = find (λ (u : User). str_eq u.email (c.lower email))

  -- the row of `create_local`
  unfoldable pub local_user : ℕ → ℕ → UserCreate → User
  local_user id salt payload = record {
    id = id;
    email = c.lower payload.email;
    full_name = payload.full_name;
    auth_provider = local;
    password_hash = some (c.hash salt payload.password);
    oidc_subject = none;
    is_active = true;
    is_superuser = false;
  }

  -- an email that is taken is an IntegrityError
  unfoldable pub create_local : ℕ → UserCreate → Users → Result User × Users
  unfolding get_by_email local_user
  create_local salt payload db =
      let user = local_user db.next_id salt payload in
      if is_some (get_by_email payload.email db.users)
      then (raised integrity_error, db)
      else (ok user, record { users = db.users ++ user ∷ []; next_id = suc db.next_id })

  -- whether the password is the user's; the throwaway verification has no effect
  unfoldable pub password_valid : String → Option User → Result Bool
  password_valid password none = ok false
  password_valid password (some user) =
      if is_local user.auth_provider && is_set user.password_hash
      then c.verify (get_or user.password_hash "") password
      else ok false

  unfoldable pub authenticate_local : String → String → List User → Result (Option User)
  unfolding get_by_email password_valid if_active
  authenticate_local email password users =
      let user = get_by_email email users in
      do valid ← password_valid password user; ok (if_active valid user)

  -- the row that `upsert_oidc` adds or changes
  unfoldable pub oidc_user : ℕ → String → String → Option String → User
  oidc_user id subject email full_name = record {
    id = id;
    email = c.lower email;
    full_name = full_name;
    auth_provider = oidc;
    password_hash = none;
    oidc_subject = some subject;
    is_active = true;
    is_superuser = false;
  }

  unfoldable pub upsert_oidc : String → String → Option String → Users → Result User × Users
  unfolding oidc_user email_taken
  upsert_oidc subject email full_name db = elim (find (has_subject subject) db.users) [
    | none ↦
        let user = oidc_user db.next_id subject email full_name in
        if email_taken user.id user.email db.users
        then (raised integrity_error, db)
        else (ok user, record { users = db.users ++ user ∷ []; next_id = suc db.next_id })
    | some found ↦
        let user : User = record found { email = c.lower email; full_name = full_name } in
        if email_taken user.id user.email db.users then (raised integrity_error, db) else (
          ok user,
          record db { users = map (λ (u : User). if u.id == user.id then user else u) db.users },
        )
  ]

module _ (c : Secrecy) (j : Jwt) where
  abbrev pub in_seconds : ℕ → ℕ
  in_seconds t = t / 1_000_000

  -- `create_access_token` of a user, without further claims; `ttl` is in minutes
  unfoldable pub create_access_token : ℕ → ℕ → ℕ → String
  create_access_token ttl user_id now = j.encode (record {
    sub = some (c.show_uuid user_id);
    iat = some (in_seconds now);
    exp = some (in_seconds (now + minutes ttl));
  })

  -- `decode_token`: none for TokenError
  unfoldable pub decode_token : String → ℕ → Option Claims
  decode_token token now = elim (j.decode token) [
    | none ↦ none
    | some claims ↦ if j.validate (in_seconds now) claims then some claims else none
  ]

  -- the subject of the claims, none or empty text included
  unfoldable pub user_of_claims : Claims → List User → Option User
  unfolding get_by_id active_user
  user_of_claims claims users =
      if is_set claims.sub
      then (elim (c.parse_uuid (get_or claims.sub "")) [
        | none ↦ none
        | some user_id ↦ active_user (get_by_id user_id users)
      ])
      else none

  -- `get_current_user`: none for the answer 401
  unfoldable pub get_current_user : String → ℕ → List User → Option User
  unfolding decode_token user_of_claims
  get_current_user token now users = elim (decode_token token now) [
    | none ↦ none
    | some claims ↦ user_of_claims claims users
  ]

  -- `login` of app/api/routes/auth.py: the token, or none for the answer 401
  unfoldable pub login : ℕ → String → String → ℕ → List User → Result (Option String)
  unfolding authenticate_local create_access_token
  login ttl email password now users = do
    found ← authenticate_local c email password users
    ok (elim found [ none ↦ none | some user ↦ some (create_access_token ttl user.id now) ])
