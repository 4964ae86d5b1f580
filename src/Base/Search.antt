-- ===== src/Base/Search.antt =====
-- Searching and selecting by Boolean tests, and rows under a primary key.
use Prim.Native.Nat.{ℕ}
use mathlib.Core.Path.{◌≡◌, refl, sym, subst, ap}
use mathlib.Core.Logic.{◌≢◌, inl, inr}
use mathlib.Core.Bool.{Bool, true, false}
use mathlib.Core.Option.{Option, none, some}
use mathlib.Core.List.{List, [], ◌∷◌, ◌++◌, Memᴰ, map}
use native.Mathlib.Omega.{arith}
use ghostmon.Base.Tests.{if◌then◌else◌, ◌==◌, Bool-cases, ==→eq}
use ghostmon.Base.Lists.{find, filterb, elem, All, All-at, All-filterb, Distinct}

module _ {ℓ} {A : Type ℓ} (p : A → Bool) where
  -- what a search finds is in the list and passes
  pub find-mem : (xs : List A) {x : A} → find p xs ≡ some x → Memᴰ x xs × (p x ≡ true)
  find-mem [] h = cc
  find-mem (y ∷ ys) {x} h = elim (Bool-cases (p y)) [
    | inl e ↦
        let same : y ≡ x = ground arith in (Memᴰ.head (sym same), subst (λ z. p z ≡ true) same e)
    | inr e ↦ let (m, q) = find-mem ys {x = x} (ground arith) in (Memᴰ.tail m, q)
  ]

  pub filterb-nil : (xs : List A) → filterb p xs ≡ [] → All (λ x. p x ≡ false) xs
  filterb-nil [] h = tt
  filterb-nil (x ∷ xs) h = elim (Bool-cases (p x)) [
    | inl e ↦ cc e
    | inr e ↦ (e, filterb-nil xs (ground arith))
  ]

  pub filterb-mem : (xs : List A) {x : A} → Memᴰ x xs → p x ≡ true → Memᴰ x (filterb p xs)
  filterb-mem [] m h = elim m [ ]
  filterb-mem (y ∷ ys) (Memᴰ.head e) h =
      let keep : p y ≡ true = subst (λ z. p z ≡ true) e h in rw keep (Memᴰ.head e)
  filterb-mem (y ∷ ys) (Memᴰ.tail m) h = elim (Bool-cases (p y)) [
    | inl e ↦ rw e (Memᴰ.tail (filterb-mem ys m h))
    | inr e ↦ rw e (filterb-mem ys m h)
  ]

module _ {ℓ κ} {A : Type ℓ} {B : Type κ} (f : A → B) where
  pub map-memᴰ : (xs : List A) {x : A} → Memᴰ x xs → Memᴰ (f x) (map f xs)
  map-memᴰ [] m = elim m [ ]
  map-memᴰ (y ∷ ys) (Memᴰ.head e) = Memᴰ.head (ap f e)
  map-memᴰ (y ∷ ys) (Memᴰ.tail m) = Memᴰ.tail (map-memᴰ ys m)

module _ {ℓ} {A : Type ℓ} (key : A → ℕ) where
  -- where the keys are different, the search by a key finds its row
  pub find-Distinct :
      (xs : List A) {x : A} → Distinct key xs → Memᴰ x xs → find (λ y. key y == key x) xs ≡ some x
  find-Distinct [] u m = elim m [ ]
  find-Distinct (y ∷ ys) {x} u (Memᴰ.head e) =
      let same : (key y == key x) ≡ true = ground (arith, ap key e) in rw (same, e)
  find-Distinct (y ∷ ys) {x} u (Memᴰ.tail m) =
      let other : (key y == key x) ≡ false = ground (arith, All-at (λ z. key z ≢ key y) ys u.0 m) in
      rw other (find-Distinct ys u.1 m)

  pub Distinct-filterb :
      (p : A → Bool) (xs : List A) → Distinct key xs → Distinct key (filterb p xs)
  Distinct-filterb p [] d = d
  Distinct-filterb p (x ∷ xs) d = elim (Bool-cases (p x)) [
    | inl e ↦ rw e (All-filterb (λ y. key y ≢ key x) p xs d.0, Distinct-filterb p xs d.1)
    | inr e ↦ rw e (Distinct-filterb p xs d.1)
  ]

  -- a key that is among the keys of the selected rows is the key of a row that passes
  pub elem-filterb :
      (p : A → Bool) (k : ℕ) (xs : List A)
      → elem k (map key (filterb p xs)) ≡ true
      → (x : A) × Memᴰ x xs × (key x ≡ k) × (p x ≡ true)
  elem-filterb p k [] h = cc
  elem-filterb p k (y ∷ ys) h = elim (Bool-cases (p y)) [
    | inr e ↦ let r = elem-filterb p k ys (rw e at h) in (r.0, Memᴰ.tail r.1, r.2, r.3)
    | inl e ↦ elim (Bool-cases (key y == k)) [
      | inl same ↦ (y, Memᴰ.head refl, ==→eq _ _ same, e)
      | inr other ↦
          let r = elem-filterb p k ys (rw other at (rw e at h)) in (r.0, Memᴰ.tail r.1, r.2, r.3)
    ]
  ]

-- the first of two results that there is
abbrev pub or_else {ℓ} : {A : Type ℓ} → Option A → Option A → Option A
or_else none b = b
or_else (some a) b = some a

pub or_else-none {ℓ} : {A : Type ℓ} (o : Option A) → or_else o none ≡ o
or_else-none none = refl
or_else-none (some a) = refl

pub find-append {ℓ} :
    {A : Type ℓ} (p : A → Bool) (xs : List A) (y : A)
    → find p (xs ++ y ∷ []) ≡ or_else (find p xs) (if p y then some y else none)
find-append p [] y = refl
find-append p (x ∷ xs) y = ground (arith, find-append p xs y)
