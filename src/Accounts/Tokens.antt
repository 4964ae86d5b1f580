-- ===== src/Accounts/Tokens.antt =====
-- app/core/services/ingestion_token_service.py, app/api/deps/ingest.py and the token routes of
-- app/api/routes/ingest.py: the tokens of agents.
use Prim.Native.String.{◌++◌ as str_append}
use ghostmon.Base.{
  ℕ, suc, Bool, true, false, ◌&&◌, ◌||◌, not, String, Option, none, some, List, [], ◌∷◌, ◌++◌, map,
  ◌==◌, str_eq, if◌then◌else◌, find, filterb, is_some, is_set, get_or, Result, ok, raised,
  integrity_error,
}
use ghostmon.Model.User.{User, IngestionToken}
use ghostmon.Accounts.{get_by_id, active_user}

-- the table, and the next UUID
pub record Tokens : Type 0 where
  pub tokens : List IngestionToken
  pub next_id : ℕ

-- `get`
unfoldable pub get_token : ℕ → ℕ → List IngestionToken → Option IngestionToken
get_token token_id owner_id =
    find (λ (t : IngestionToken). t.id == token_id && t.owner_id == owner_id)

-- `delete_token` and the `delete` it calls: whether there is such a token, or the answer is 404
unfoldable pub delete_token : ℕ → ℕ → Tokens → Bool × Tokens
unfolding get_token
delete_token token_id owner_id db = elim (get_token token_id owner_id db.tokens) [
  | none ↦ (false, db)
  | some token ↦ (
    true,
    record db { tokens = filterb (λ (t : IngestionToken). not (t.id == token.id)) db.tokens },
  )
]

-- the stamp of `authenticate`
unfoldable pub stamped : ℕ → ℕ → IngestionToken → IngestionToken
stamped id now t = if t.id == id then record t { last_used_at = some now } else t

-- `sha256` is the hexadecimal SHA-256 of a text in UTF-8
module _ (sha256 : String → String) where
  unfoldable pub has_hash : String → IngestionToken → Bool
  has_hash plaintext t = str_eq t.token_hash (sha256 plaintext)

  -- the two UNIQUE constraints of the table
  unfoldable pub token_taken : ℕ → String → String → List IngestionToken → Bool
  unfolding has_hash
  token_taken owner_id name plaintext ts =
      is_some (find (has_hash plaintext) ts)
      || is_some (find (λ (t : IngestionToken). t.owner_id == owner_id && str_eq t.name name) ts)

  unfoldable pub new_token : ℕ → ℕ → String → String → IngestionToken
  new_token id owner_id name plaintext = record {
    id = id;
    name = name;
    token_hash = sha256 plaintext;
    last_used_at = none;
    owner_id = owner_id;
  }

  -- `create`, the random part of the secret drawn; the token and the secret that is shown once
  unfoldable pub create_token :
      String → ℕ → String → Tokens → Result (IngestionToken × String) × Tokens
  unfolding token_taken new_token
  create_token drawn owner_id name db =
      let plaintext = str_append "gmi_" drawn in
      let token = new_token db.next_id owner_id name plaintext in
      if token_taken owner_id name plaintext db.tokens then (raised integrity_error, db) else (
        ok (token, plaintext),
        record { tokens = db.tokens ++ token ∷ []; next_id = suc db.next_id },
      )

  -- `authenticate`, the owner read over the foreign key
  unfoldable pub authenticate : String → ℕ → List User → Tokens → Option User × Tokens
  unfolding has_hash stamped get_by_id
  authenticate presented now users db = elim (find (has_hash presented) db.tokens) [
    | none ↦ (none, db)
    | some token ↦ (
      get_by_id token.owner_id users,
      record db { tokens = map (stamped token.id now) db.tokens },
    )
  ]

  -- `get_ingest_owner`: none for the answer 401
  unfoldable pub get_ingest_owner : Option String → ℕ → List User → Tokens → Option User × Tokens
  unfolding authenticate active_user
  get_ingest_owner x_ingest_token now users db =
      if is_set x_ingest_token
      then (let owner = authenticate (get_or x_ingest_token "") now users db in
          (active_user owner.0, owner.1))
      else (none, db)

  -- requests of agents, one after another, with the token of each and its time
  unfoldable pub presented : List (Option String × ℕ) → List User → Tokens → Tokens
  unfolding get_ingest_owner
  presented [] users db = db
  presented ((x_ingest_token, now) ∷ rest) users db =
      presented rest users (get_ingest_owner x_ingest_token now users db).1
