-- ===== src/Accounts/Tests.antt =====
-- Accounts, sessions and tokens at concrete tables.
use ghostmon.Base.{
  ℕ, ◌≤◌, ◌≡◌, refl, arith, true, false, String, none, some, [], ◌∷◌, Memᴰ, ok, raised,
  integrity_error,
}
use ghostmon.Model.User.{User, IngestionToken, local}
use ghostmon.Accounts.{
  Claims, Users, UserCreate, create_local, login, get_current_user, create_access_token, get_by_id,
  upsert_oidc, local_user, get_by_email, authenticate_local, password_valid, if_active,
  decode_token, user_of_claims, active_user, oidc_user, email_taken,
}
use ghostmon.Accounts.Tokens.{
  Tokens, create_token, delete_token, get_ingest_owner, presented, token_taken, new_token, has_hash,
}
use ghostmon.Accounts.Sessions.{create_local-session}
use ghostmon.Accounts.Checked.{login-authenticated, get_current_user-unexpired}
use ghostmon.Accounts.Samples.{plain, unsigned, plain-IsSecrecy, unsigned-IsJwt}
use ghostmon.Accounts.Granted.{create_token-revoked}

abbrev payload : UserCreate
payload = record { email = "a@b.c"; full_name = none; password = "pw" }

abbrev no_users : Users
no_users = record { users = []; next_id = 4 }

abbrev user : User
user = record {
  id = 4;
  email = "a@b.c";
  full_name = none;
  auth_provider = local;
  password_hash = some "$pw";
  oidc_subject = none;
  is_active = true;
  is_superuser = false;
}

abbrev token : String
token = create_access_token plain unsigned 1 4 5_000_000

created : (create_local plain 0 payload no_users).0 ≡ ok user
unfolding create_local local_user get_by_email
created = refl

taken :
    (create_local plain 0 payload (create_local plain 0 payload no_users).1).0
    ≡ raised integrity_error
unfolding create_local local_user get_by_email
taken = refl

create_local-session_example :
    (t : String) × (login plain unsigned 1 "a@b.c" "pw" 5_000_000
        (create_local plain 0 payload no_users).1.users
      ≡ ok (some t))
    × (get_current_user plain unsigned t 60_000_000 (create_local plain 0 payload no_users).1.users
        ≡ some user)
create_local-session_example =
    create_local-session plain unsigned plain-IsSecrecy unsigned-IsJwt 0 1 5_000_000 60_000_000
      payload no_users (record { below = tt }) created (omega arith) (omega arith)

logged_in : login plain unsigned 1 "a@b.c" "pw" 5_000_000 (user ∷ []) ≡ ok (some token)
unfolding login authenticate_local get_by_email password_valid if_active create_access_token
logged_in = refl

wrong_password : login plain unsigned 1 "a@b.c" "pq" 5_000_000 (user ∷ []) ≡ ok none
unfolding login authenticate_local get_by_email password_valid if_active create_access_token
wrong_password = refl

login-authenticated_example :
    (u : User) × Memᴰ u (user ∷ [])
    × (u.email ≡ "a@b.c")
    × (u.is_active ≡ true)
    × (u.auth_provider ≡ local)
    × ((hash : String) × (u.password_hash ≡ some hash) × (plain.verify hash "pw" ≡ ok true))
    × (token ≡ create_access_token plain unsigned 1 u.id 5_000_000)
login-authenticated_example =
    login-authenticated plain unsigned 1 5_000_000 "a@b.c" "pw" (user ∷ []) logged_in

current : get_current_user plain unsigned token 60_000_000 (user ∷ []) ≡ some user
unfolding get_current_user decode_token user_of_claims get_by_id active_user create_access_token
current = refl

-- one second after its last
expired : get_current_user plain unsigned token 66_000_000 (user ∷ []) ≡ none
unfolding get_current_user decode_token user_of_claims get_by_id active_user create_access_token
expired = refl

get_current_user-unexpired_example :
    (claims : Claims) × (unsigned.decode token ≡ some claims)
    × ((e : ℕ) × (claims.exp ≡ some e) × (60 ≤ e))
    × ((sub : String) × (claims.sub ≡ some sub) × (plain.parse_uuid sub ≡ some 4))
    × Memᴰ user (user ∷ [])
    × (true ≡ true)
get_current_user-unexpired_example =
    get_current_user-unexpired plain unsigned unsigned-IsJwt token 60_000_000 (user ∷ []) current

abbrev no_tokens : Tokens
no_tokens = record { tokens = []; next_id = 0 }

abbrev agent : IngestionToken
agent = record { id = 0; name = "agent"; token_hash = "gmi_r"; last_used_at = none; owner_id = 4 }

abbrev with_agent : Tokens
with_agent = (create_token (λ s. s) "r" 4 "agent" no_tokens).1

agent_created : (create_token (λ s. s) "r" 4 "agent" no_tokens).0 ≡ ok (agent, "gmi_r")
unfolding create_token token_taken new_token has_hash
agent_created = refl

known : get_by_id 4 (user ∷ []) ≡ some user
unfolding get_by_id
known = refl

create_token-revoked_example :
    ((get_ingest_owner
        (λ s. s)
        (some "gmi_r")
        9
        (user ∷ [])
        (presented (λ s. s) ((some "gmi_r", 7) ∷ (none, 8) ∷ []) (user ∷ []) with_agent)).0
      ≡ some user)
    × ((removed : Tokens) × (delete_token 0 4
            (presented (λ s. s) ((some "gmi_r", 7) ∷ (none, 8) ∷ []) (user ∷ []) with_agent)
          ≡ (true, removed))
        × ((get_ingest_owner (λ s. s) (some "gmi_r") 9 (user ∷ []) removed).0 ≡ none))
create_token-revoked_example =
    create_token-revoked (λ s. s) "r" 4 "agent" no_tokens ((some "gmi_r", 7) ∷ (none, 8) ∷ []) 9
      (user ∷ []) agent_created known refl

-- the email of a local account makes a first sign-in through OIDC fail
conflict :
    (upsert_oidc plain "sub" "a@b.c" none (record { users = user ∷ []; next_id = 5 })).0
    ≡ raised integrity_error
unfolding upsert_oidc oidc_user email_taken
conflict = refl
