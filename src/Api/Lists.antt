-- ===== src/Api/Lists.antt =====
-- Rows of other owners, in tables of which a row is added, changed or deleted by its key.
use ghostmon.Base.{
  ℕ, ◌≡◌, ◌≢◌, refl, ◌∙◌, Bool, true, false, ◌&&◌, not, some, List, [], ◌∷◌, ◌++◌, map, arith, ◌==◌,
  if◌then◌else◌, filterb, find, elem, All, All-at, All-weaken, Distinct, find-mem, elem-filterb,
  Bool-cases, inl, inr,
}

module _ {ℓ} {A : Type ℓ} (p : A → Bool) where
  pub filterb-deleted :
      (gone : A → Bool) (xs : List A)
      → All (λ x. gone x ≡ true → p x ≡ false) xs
      → filterb p (filterb (λ x. not (gone x)) xs) ≡ filterb p xs
  filterb-deleted gone [] h = refl
  filterb-deleted gone (x ∷ xs) h = elim (Bool-cases (gone x)) [
    | inl e ↦ rw (e, h.0 e) (filterb-deleted gone xs h.1)
    | inr e ↦ rw e (rw (filterb, filterb-deleted gone xs h.1) refl)
  ]

  -- rows that pass neither before nor after are changed
  pub filterb-changed :
      (f : A → A) (xs : List A)
      → All (λ x. (p (f x) ≡ p x) × (p x ≡ true → f x ≡ x)) xs
      → filterb p (map f xs) ≡ filterb p xs
  filterb-changed f [] h = refl
  filterb-changed f (x ∷ xs) h = elim (Bool-cases (p x)) [
    | inl e ↦ rw (h.0.1 e, e) (rw (filterb-changed f xs h.1) refl)
    | inr e ↦ let after = h.0.0 ∙ e in rw (after, e) (filterb-changed f xs h.1)
  ]

  pub filterb-added : (xs : List A) (y : A) → p y ≡ false → filterb p (xs ++ y ∷ []) ≡ filterb p xs
  filterb-added [] y h = rw h refl
  filterb-added (x ∷ xs) y h = ground (arith, filterb-added xs y h)

module _ {ℓ} {A : Type ℓ} (key owner : A → ℕ) (k u : ℕ) where
  -- where a user's row is found by its key, every row of the key is the user's
  pub owned_key :
      (xs : List A) {x : A}
      → Distinct key xs
      → find (λ y. key y == k && owner y == u) xs ≡ some x
      → All (λ y. (key y == k) ≡ true → owner y ≡ u) xs
  owned_key [] d h = tt
  owned_key (y ∷ ys) {x} d h = elim (Bool-cases (key y == k && owner y == u)) [
    | inl e ↦ (
      (λ same. ground (arith, e)),
      All-weaken (λ z. key z ≢ key y) (λ z. (key z == k) ≡ true → owner z ≡ u)
          (λ z other same. ground (arith, e, other, same)) ys d.0,
    )
    | inr e ↦
        let later = rw e at h in
        let (m, found) = find-mem (λ z. key z == k && owner z == u) ys {x = x} later in
        let other = All-at (λ z. key z ≢ key y) ys d.0 m in
        ((λ same. ground (arith, found, other, same)), owned_key ys {x = x} d.1 later)
  ]

  pub foreign_key :
      (o : ℕ) (xs : List A) {x : A}
      → u ≢ o
      → Distinct key xs
      → find (λ y. key y == k && owner y == u) xs ≡ some x
      → All (λ y. (key y == k) ≡ true → (owner y == o) ≡ false) xs
  foreign_key o xs {x} apart d h =
      All-weaken (λ y. (key y == k) ≡ true → owner y ≡ u)
        (λ y. (key y == k) ≡ true → (owner y == o) ≡ false)
        (λ y own same. ground (arith, own same, apart)) xs (owned_key xs {x = x} d h)

  -- the key is not among those of another owner
  pub not_theirs :
      (o : ℕ) (xs : List A)
      → u ≢ o
      → All (λ y. (key y == k) ≡ true → owner y ≡ u) xs
      → elem k (map key (filterb (λ y. owner y == o) xs)) ≡ false
  not_theirs o xs apart owned =
      elim (Bool-cases (elem k (map key (filterb (λ y. owner y == o) xs)))) [
        | inl e ↦
            let (y, m, same, theirs) = elem-filterb key (λ z. owner z == o) k xs e in
            let own =
              All-at (λ z. (key z == k) ≡ true → owner z ≡ u) xs owned m (ground (arith, same)) in
            ground (arith, own, theirs, apart)
        | inr e ↦ e
      ]

module _ {ℓ} {A : Type ℓ} (key : A → ℕ) (p : A → Bool) (new : A) where
  -- a row that does not pass is replaced by one that does not
  pub filterb-replaced :
      (xs : List A)
      → All (λ x. (key x == key new) ≡ true → p x ≡ false) xs
      → p new ≡ false
      → filterb p (map (λ x. if key x == key new then new else x) xs) ≡ filterb p xs
  filterb-replaced [] h out = refl
  filterb-replaced (x ∷ xs) h out = elim (Bool-cases (key x == key new)) [
    | inl e ↦ rw (e, out, h.0 e) (filterb-replaced xs h.1 out)
    | inr e ↦ rw e (rw (filterb, filterb-replaced xs h.1 out) refl)
  ]
