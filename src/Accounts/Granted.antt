-- ===== src/Accounts/Granted.antt =====
-- The tokens of agents: a new one names its owner until it is revoked (app/core/services/ingestion_token_service.py,
-- app/api/deps/ingest.py).
use Prim.Native.String.append
use Prim.Native.String.{◌++◌ as str_append}
use ghostmon.Base.{
  ℕ, ◌≡◌, refl, sym, ap, ◌∙◌, true, false, String, Option, none, some, List, [], ◌∷◌, ◌++◌, str_eq,
  subst, find, is_set, is_set_filled, ok, All-append, All-weaken, eq_iff, Bool-cases, Option-cases,
  inl, inr, ok_inj, str_eq_refl, find-append,
}
use ghostmon.Base.Texts.{is_empty}
use ghostmon.Model.User.{User, IngestionToken}
use ghostmon.Accounts.{get_by_id}
use ghostmon.Accounts.Tokens.{
  Tokens, delete_token, has_hash, token_taken, new_token, create_token, get_ingest_owner, presented,
}
use ghostmon.Accounts.Held.{
  Held, Held-presented, Held-accepted, unhashed-rejected, Held-delete_token, find-none,
}

abbrev secret : String → String
secret drawn = str_append "gmi_" drawn

secret-filled : (drawn : String) → is_set (some (secret drawn)) ≡ true
secret-filled drawn = elim (Bool-cases (str_eq (secret drawn) "")) [
  | inr e ↦ is_set_filled (secret drawn) e
  | inl e ↦ cc (ap is_empty (sym (append.cons "g" "mi_" drawn) ∙ (eq_iff (secret drawn) "").0 e))
]

module _ (sha256 : String → String) (drawn : String) (owner_id : ℕ) (name : String)
    (db : Tokens) where
  unhashed :
      token_taken sha256 owner_id name (secret drawn) db.tokens ≡ false
      → find (has_hash sha256 (secret drawn)) db.tokens ≡ none
  unfolding token_taken
  unhashed h = elim (Option-cases (find (has_hash sha256 (secret drawn)) db.tokens)) [
    | inl e ↦ e
    | inr (t, e) ↦ cc (rw e at h)
  ]

  create_token-inv :
      {token : IngestionToken} {plaintext : String}
      → (create_token sha256 drawn owner_id name db).0 ≡ ok (token, plaintext)
      → (new_token sha256 db.next_id owner_id name (secret drawn) ≡ token)
        × (secret drawn ≡ plaintext)
        × ((create_token sha256 drawn owner_id name db).1.tokens
            ≡ db.tokens ++ new_token sha256 db.next_id owner_id name (secret drawn) ∷ [])
        × (find (has_hash sha256 (secret drawn)) db.tokens ≡ none)
  unfolding create_token
  create_token-inv {token} {plaintext} h =
      elim (Bool-cases (token_taken sha256 owner_id name (secret drawn) db.tokens)) [
        | inl e ↦ cc (rw e at h)
        | inr e ↦
            let given = ok_inj (rw e at h) in
            (
              ap (λ (r : IngestionToken × String). r.0) given,
              ap (λ (r : IngestionToken × String). r.1) given,
              rw e refl,
              unhashed e,
            )
      ]

  find-created :
      find (has_hash sha256 (secret drawn)) db.tokens ≡ none
      → find
          (has_hash sha256 (secret drawn))
          (db.tokens ++ new_token sha256 db.next_id owner_id name (secret drawn) ∷ [])
        ≡ some (new_token sha256 db.next_id owner_id name (secret drawn))
  unfolding has_hash new_token
  find-created h =
      rw
        (
          find-append (has_hash sha256 (secret drawn)) db.tokens
              (new_token sha256 db.next_id owner_id name (secret drawn)),
          h,
          str_eq_refl (sha256 (secret drawn)),
        )
        refl

  Held-created :
      find (has_hash sha256 (secret drawn)) db.tokens ≡ none
      → Held sha256
          (secret drawn)
          db.next_id
          owner_id
          (db.tokens ++ new_token sha256 db.next_id owner_id name (secret drawn) ∷ [])
  unfolding new_token
  Held-created h = record {
    row = new_token sha256 db.next_id owner_id name (secret drawn);
    found = find-created h;
    numbered = refl;
    owned = refl;
    sole =
        All-append (λ t. has_hash sha256 (secret drawn) t ≡ true → t.id ≡ db.next_id) db.tokens
          (new_token sha256 db.next_id owner_id name (secret drawn) ∷ [])
          (All-weaken (λ t. has_hash sha256 (secret drawn) t ≡ false)
            (λ t. has_hash sha256 (secret drawn) t ≡ true → t.id ≡ db.next_id)
            (λ t e e'. cc (sym e ∙ e')) db.tokens
            (find-none (has_hash sha256 (secret drawn)) db.tokens h))
          ((λ e. refl), tt);
  }

  created-Held :
      {token : IngestionToken} {plaintext : String}
      → (create_token sha256 drawn owner_id name db).0 ≡ ok (token, plaintext)
      → Held sha256 plaintext token.id owner_id
          (create_token sha256 drawn owner_id name db).1.tokens
        × (is_set (some plaintext) ≡ true)
  unfolding new_token
  created-Held {token} {plaintext} h =
      let (same, shown, rows, absent) = create_token-inv h in
      (
        subst (Held sha256 plaintext token.id owner_id) (sym rows) (
            subst
              (λ s.
                Held sha256 s token.id owner_id
                  (db.tokens ++ new_token sha256 db.next_id owner_id name (secret drawn) ∷ []))
              shown
              (subst
                (λ (t : IngestionToken).
                  Held sha256 (secret drawn) t.id owner_id
                    (db.tokens ++ new_token sha256 db.next_id owner_id name (secret drawn) ∷ []))
                same (Held-created absent))),
        subst (λ s. is_set (some s) ≡ true) shown (secret-filled drawn),
      )

  -- A new token that the table takes is accepted, whatever tokens have been presented since, where its
  -- owner is an active user; the owner can delete it, and then it is rejected.
  pub create_token-revoked :
      (requests : List (Option String × ℕ)) (now : ℕ) (users : List User) {owner : User}
      {token : IngestionToken} {plaintext : String}
      → (create_token sha256 drawn owner_id name db).0 ≡ ok (token, plaintext)
      → get_by_id owner_id users ≡ some owner
      → owner.is_active ≡ true
      → ((get_ingest_owner sha256
            (some plaintext)
            now
            users
            (presented sha256 requests users (create_token sha256 drawn owner_id name db).1)).0
          ≡ some owner)
        × ((removed : Tokens) × (delete_token token.id owner_id
                (presented sha256 requests users (create_token sha256 drawn owner_id name db).1)
              ≡ (true, removed))
            × ((get_ingest_owner sha256 (some plaintext) now users removed).0 ≡ none))
  create_token-revoked requests now users {owner} {token} {plaintext} h known active =
      let (held, filled) = created-Held h in
      let after = presented sha256 requests users (create_token sha256 drawn owner_id name db).1 in
      let kept : Held sha256 plaintext token.id owner_id after.tokens =
        Held-presented sha256 plaintext token.id owner_id requests users
          (create_token sha256 drawn owner_id name db).1 held in
      let (removed, answer, gone) =
        Held-delete_token sha256 plaintext token.id owner_id after kept in
      (
        Held-accepted sha256 plaintext token.id owner_id now users after kept filled known active,
        (
          removed,
          answer,
          unhashed-rejected sha256 plaintext token.id owner_id now users removed gone,
        ),
      )
