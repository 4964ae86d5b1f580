-- ===== src/Accounts/Held.antt =====
-- The row of a presented secret under stamping and deletion (app/core/services/ingestion_token_service.py).
use ghostmon.Base.{
  ℕ, ◌≡◌, refl, sym, ap, ◌∙◌, Bool, true, false, ◌&&◌, not, String, Option, none, some, List, [],
  ◌∷◌, map, ◌==◌, find, filterb, is_set, get_or, Memᴰ, All, All-at, Bool-cases, Option-cases, inl,
  inr, arith, some_inj, ==→eq, find-mem,
}
use ghostmon.Model.User.{User, IngestionToken}
use ghostmon.Accounts.{get_by_id, active_user}
use ghostmon.Accounts.Tokens.{
  Tokens, get_token, delete_token, has_hash, stamped, authenticate, get_ingest_owner, presented,
}

abbrev pub Sole {ℓ} : {A : Type ℓ} → (A → Bool) → (A → ℕ) → ℕ → List A → Type 0
Sole p key n = All (λ x. p x ≡ true → key x ≡ n)

module _ {ℓ} {A : Type ℓ} (p : A → Bool) where
  pub find-none : (xs : List A) → find p xs ≡ none → All (λ x. p x ≡ false) xs
  find-none [] h = tt
  find-none (x ∷ xs) h = elim (Bool-cases (p x)) [
    | inl e ↦ cc (rw e at h)
    | inr e ↦ (e, find-none xs (rw e at h))
  ]

  find-some :
      (xs : List A) {x : A} → Memᴰ x xs → p x ≡ true → (y : A) × (find p xs ≡ some y) × (p y ≡ true)
  find-some xs {x} m h = elim (Option-cases (find p xs)) [
    | inr (y, e) ↦ (y, e, (find-mem p xs e).1)
    | inl e ↦ cc (sym h ∙ All-at (λ z. p z ≡ false) xs (find-none xs e) m)
  ]

  -- where only the key of one row passes, no row passes after it has been removed
  find-filterb :
      (key : A → ℕ) (n : ℕ) (xs : List A)
      → Sole p key n xs
      → find p (filterb (λ x. not (key x == n)) xs) ≡ none
  find-filterb key n [] h = refl
  find-filterb key n (x ∷ xs) h = elim (Bool-cases (key x == n)) [
    | inl e ↦ rw e (find-filterb key n xs h.1)
    | inr e ↦ elim (Bool-cases (p x)) [
      | inr e' ↦ rw (e, e') (find-filterb key n xs h.1)
      | inl e' ↦ ground (arith, h.0 e', e)
    ]
  ]

-- the row of a secret, which no other row has the hash of
pub record Held (sha256 : String → String) (plaintext : String) (id owner_id : ℕ)
    (ts : List IngestionToken) : Type 0 where
  pub row : IngestionToken
  pub found : find (has_hash sha256 plaintext) ts ≡ some row
  pub numbered : row.id ≡ id
  pub owned : row.owner_id ≡ owner_id
  pub sole : Sole (has_hash sha256 plaintext) (λ (t : IngestionToken). t.id) id ts

module _ (sha256 : String → String) (plaintext : String) (id owner_id : ℕ) where
  stamped_keeps :
      (k now : ℕ) (t : IngestionToken)
      → (has_hash sha256 plaintext (stamped k now t) ≡ has_hash sha256 plaintext t)
        × ((stamped k now t).id ≡ t.id)
        × ((stamped k now t).owner_id ≡ t.owner_id)
  unfolding has_hash stamped
  stamped_keeps k now t = elim (Bool-cases (t.id == k)) [
    | inl e ↦ rw e (refl, refl, refl)
    | inr e ↦ rw e (refl, refl, refl)
  ]

  find-stamped :
      (k now : ℕ) (ts : List IngestionToken) {row : IngestionToken}
      → find (has_hash sha256 plaintext) ts ≡ some row
      → find (has_hash sha256 plaintext) (map (stamped k now) ts) ≡ some (stamped k now row)
  find-stamped k now [] h = cc h
  find-stamped k now (t ∷ ts) {row} h = elim (Bool-cases (has_hash sha256 plaintext t)) [
    | inl e ↦
        rw ((stamped_keeps k now t).0, e) (ap (λ z. some (stamped k now z)) (some_inj (rw e at h)))
    | inr e ↦ rw ((stamped_keeps k now t).0, e) (find-stamped k now ts (rw e at h))
  ]

  Sole-stamped :
      (k now : ℕ) (ts : List IngestionToken)
      → Sole (has_hash sha256 plaintext) (λ (t : IngestionToken). t.id) id ts
      → Sole (has_hash sha256 plaintext) (λ (t : IngestionToken). t.id) id (map (stamped k now) ts)
  Sole-stamped k now [] h = tt
  Sole-stamped k now (t ∷ ts) h = (
    (λ e. (stamped_keeps k now t).1 ∙ h.0 (sym (stamped_keeps k now t).0 ∙ e)),
    Sole-stamped k now ts h.1,
  )

  Held-stamped :
      (k now : ℕ) (ts : List IngestionToken)
      → Held sha256 plaintext id owner_id ts
      → Held sha256 plaintext id owner_id (map (stamped k now) ts)
  Held-stamped k now ts h = record {
    row = stamped k now h.row;
    found = find-stamped k now ts h.found;
    numbered = (stamped_keeps k now h.row).1 ∙ h.numbered;
    owned = (stamped_keeps k now h.row).2 ∙ h.owned;
    sole = Sole-stamped k now ts h.sole;
  }

  Held-authenticate :
      (presented : String) (now : ℕ) (users : List User) (db : Tokens)
      → Held sha256 plaintext id owner_id db.tokens
      → Held sha256 plaintext id owner_id (authenticate sha256 presented now users db).1.tokens
  unfolding authenticate
  Held-authenticate presented now users db h =
      elim (Option-cases (find (has_hash sha256 presented) db.tokens)) [
        | inl e ↦ rw (authenticate, e) h
        | inr (t, e) ↦ rw (authenticate, e) (Held-stamped t.id now db.tokens h)
      ]

  Held-get_ingest_owner :
      (header : Option String) (now : ℕ) (users : List User) (db : Tokens)
      → Held sha256 plaintext id owner_id db.tokens
      → Held sha256 plaintext id owner_id (get_ingest_owner sha256 header now users db).1.tokens
  unfolding get_ingest_owner
  Held-get_ingest_owner header now users db h = elim (Bool-cases (is_set header)) [
    | inl e ↦ rw (get_ingest_owner, e) (Held-authenticate (get_or header "") now users db h)
    | inr e ↦ rw (get_ingest_owner, e) h
  ]

  pub Held-presented :
      (requests : List (Option String × ℕ)) (users : List User) (db : Tokens)
      → Held sha256 plaintext id owner_id db.tokens
      → Held sha256 plaintext id owner_id (presented sha256 requests users db).tokens
  unfolding presented
  Held-presented [] users db h = h
  Held-presented ((header, now) ∷ rest) users db h =
      Held-presented rest users (get_ingest_owner sha256 header now users db).1
        (Held-get_ingest_owner header now users db h)

  pub Held-accepted :
      (now : ℕ) (users : List User) (db : Tokens) {owner : User}
      → Held sha256 plaintext id owner_id db.tokens
      → is_set (some plaintext) ≡ true
      → get_by_id owner_id users ≡ some owner
      → owner.is_active ≡ true
      → (get_ingest_owner sha256 (some plaintext) now users db).0 ≡ some owner
  unfolding get_ingest_owner authenticate active_user
  Held-accepted now users db h filled known active =
      rw (get_ingest_owner, filled, authenticate, h.found, h.owned, known, active) refl

  pub unhashed-rejected :
      (now : ℕ) (users : List User) (db : Tokens)
      → find (has_hash sha256 plaintext) db.tokens ≡ none
      → (get_ingest_owner sha256 (some plaintext) now users db).0 ≡ none
  unfolding get_ingest_owner authenticate active_user
  unhashed-rejected now users db h = elim (Bool-cases (is_set (some plaintext))) [
    | inl e ↦ rw (get_ingest_owner, e, authenticate, h) refl
    | inr e ↦ rw (get_ingest_owner, e) refl
  ]

  pub Held-delete_token :
      (db : Tokens)
      → Held sha256 plaintext id owner_id db.tokens
      → (removed : Tokens) × (delete_token id owner_id db ≡ (true, removed))
        × (find (has_hash sha256 plaintext) removed.tokens ≡ none)
  unfolding delete_token get_token
  Held-delete_token db h =
      let own : (h.row.id == id && h.row.owner_id == owner_id) ≡ true =
        rw (h.numbered, h.owned) (ground arith) in
      let (t, e, q) =
        find-some (λ (t : IngestionToken). t.id == id && t.owner_id == owner_id) db.tokens
          (find-mem (has_hash sha256 plaintext) db.tokens h.found).0 own in
      let same : t.id ≡ id = ==→eq t.id id (ground (arith, q)) in
      (
        record db { tokens = filterb (λ (u : IngestionToken). not (u.id == t.id)) db.tokens },
        rw (delete_token, e) refl,
        rw same (
            find-filterb (has_hash sha256 plaintext) (λ (u : IngestionToken). u.id) id db.tokens
              h.sole),
      )
