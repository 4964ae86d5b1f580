-- ===== src/Api/Kept.antt =====
-- Tables with primary keys, of which a row is added or changed.
use ghostmon.Base.{
  ◌∙◌, subst, ℕ, ◌<◌, ◌≡◌, ◌≢◌, refl, sym, List, [], ◌∷◌, ◌++◌, map, arith, ◌==◌, if◌then◌else◌,
  All, All-append, Distinct, Absent, Bool-cases, inl, inr, ==→eq,
}

module _ {ℓ} {A : Type ℓ} (key : A → ℕ) where
  pub Distinct-added :
      (n : ℕ) (xs : List A) (y : A)
      → Distinct key xs
      → All (λ x. key x < n) xs
      → key y ≡ n
      → Distinct key (xs ++ y ∷ [])
  Distinct-added n [] y d fresh new = (tt, tt)
  Distinct-added n (x ∷ xs) y d fresh new = (
    All-append (λ z. key z ≢ key x) xs (y ∷ []) d.0 ((λ e. ground (arith, e, new, fresh.0)), tt),
    Distinct-added n xs y d.1 fresh.1 new,
  )

  Absent-map :
      (f : A → A) (k : ℕ) (xs : List A)
      → ((x : A) → key (f x) ≡ key x)
      → Absent key k xs
      → Absent key k (map f xs)
  Absent-map f k [] same h = tt
  Absent-map f k (x ∷ xs) same h = ((λ e. h.0 (sym (same x) ∙ e)), Absent-map f k xs same h.1)

  pub Distinct-map :
      (f : A → A) (xs : List A)
      → ((x : A) → key (f x) ≡ key x)
      → Distinct key xs
      → Distinct key (map f xs)
  Distinct-map f [] same d = tt
  Distinct-map f (x ∷ xs) same d = (
    subst (λ k. Absent key k (map f xs)) (sym (same x)) (Absent-map f (key x) xs same d.0),
    Distinct-map f xs same d.1,
  )

  abbrev pub replace : A → A → A
  replace new x = if key x == key new then new else x

  pub key-replace : (new x : A) → key (replace new x) ≡ key x
  key-replace new x = elim (Bool-cases (key x == key new)) [
    | inl e ↦ rw e (sym (==→eq (key x) (key new) e))
    | inr e ↦ rw e refl
  ]

  pub All-replace {κ} :
      (P : A → Type κ) (new : A) (xs : List A) → P new → All P xs → All P (map (replace new) xs)
  All-replace P new [] n h = tt
  All-replace P new (x ∷ xs) n h = elim (Bool-cases (key x == key new)) [
    | inl e ↦ rw e (n, All-replace P new xs n h.1)
    | inr e ↦ rw e (h.0, All-replace P new xs n h.1)
  ]

pub All-map {ℓ κ} :
    {A : Type ℓ} (P Q : A → Type κ) (f : A → A)
    → ((x : A) → P x → Q (f x))
    → (xs : List A) → All P xs
    → All Q (map f xs)
All-map P Q f step [] h = tt
All-map P Q f step (x ∷ xs) h = (step x h.0, All-map P Q f step xs h.1)
