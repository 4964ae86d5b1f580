-- ===== src/Base/Lists.antt =====
-- Lists measured by native numbers, filtered and searched by Boolean tests, and predicates over
-- them by recursion.
use Prim.Native.Nat.{ℕ, zero, suc, ◌+◌, ◌≤◌}
use mathlib.Core.Logic.{◌≢◌}
use mathlib.Core.Path.{◌≡◌, refl, sym, subst, ap}
use mathlib.Core.Bool.{Bool, true, false}
use mathlib.Core.Option.{Option, none, some}
use mathlib.Core.List.{List, [], ◌∷◌, ◌++◌, Memᴰ}
use native.Mathlib.Omega.{arith}
use Prim.Native.String.{String}
use text.Mathlib.Text.{◌==◌ as str_eq}
use text.Mathlib.TextEquality.{eq_iff}
use mathlib.Core.Bool.{◌||◌}
use ghostmon.Base.Tests.{◌==◌, if◌then◌else◌}

module _ {ℓ} {A : Type ℓ} where
  abbrev pub length : List A → ℕ
  length [] = 0
  length (x ∷ xs) = suc (length xs)

  -- `[x for x in xs if p(x)]`, a `where` clause
  abbrev pub filterb : (A → Bool) → List A → List A
  filterb p [] = []
  filterb p (x ∷ xs) = let rest = filterb p xs in if p x then x ∷ rest else rest

  -- the first row that passes: `scalar_one_or_none` of a query by a unique key
  abbrev pub find : (A → Bool) → List A → Option A
  find p [] = none
  find p (x ∷ xs) = let rest = find p xs in if p x then some x else rest

  -- the first `n`: a `limit` clause, a slice `xs[:n]`
  abbrev pub take : ℕ → List A → List A
  take zero xs = []
  take (suc n) [] = []
  take (suc n) (x ∷ xs) = x ∷ take n xs

  pub length-append : (xs ys : List A) → length (xs ++ ys) ≡ length xs + length ys
  length-append [] ys = omega arith
  length-append (x ∷ xs) ys = omega (arith, length-append xs ys)

  pub length-filterb : (p : A → Bool) (xs : List A) → length (filterb p xs) ≤ length xs
  length-filterb p [] = omega arith
  length-filterb p (x ∷ xs) = ground (arith, length-filterb p xs)

-- `P` holds of every element
abbrev pub All {ℓ κ} : {A : Type ℓ} → (A → Type κ) → List A → Type κ
All P [] = Unit
All P (x ∷ xs) = P x × All P xs

-- `[y for x in xs for y in f(x)]`
abbrev pub concat_map {ℓ κ} : {A : Type ℓ} {B : Type κ} → (B → List A) → List B → List A
concat_map f [] = []
concat_map f (y ∷ ys) = f y ++ concat_map f ys

module _ {ℓ κ} {A : Type ℓ} (P : A → Type κ) where
  pub All-append : (xs ys : List A) → All P xs → All P ys → All P (xs ++ ys)
  All-append [] ys hx hy = hy
  All-append (x ∷ xs) ys hx hy = (hx.0, All-append xs ys hx.1 hy)

  pub All-filterb : (p : A → Bool) (xs : List A) → All P xs → All P (filterb p xs)
  All-filterb p [] h = h
  All-filterb p (x ∷ xs) h = ground (arith, All-filterb p xs h.1)

  pub All-concat_map {κ'} :
      {B : Type κ'} (f : B → List A) (ys : List B)
      → All (λ y. All P (f y)) ys
      → All P (concat_map f ys)
  All-concat_map f [] h = tt
  All-concat_map f (y ∷ ys) h = All-append (f y) (concat_map f ys) h.0 (All-concat_map f ys h.1)

module _ {ℓ κ μ} {A : Type ℓ} (P : A → Type κ) (Q : A → Type μ) (imp : (x : A) → P x → Q x) where
  pub All-weaken : (xs : List A) → All P xs → All Q xs
  All-weaken [] h = tt
  All-weaken (x ∷ xs) h = (imp x h.0, All-weaken xs h.1)

module _ {ℓ κ μ ν} {A : Type ℓ} (P : A → Type κ) (Q : A → Type μ) (R : A → Type ν)
    (imp : (x : A) → P x → Q x → R x) where
  pub All-join : (xs : List A) → All P xs → All Q xs → All R xs
  All-join [] h k = tt
  All-join (x ∷ xs) h k = (imp x h.0 k.0, All-join xs h.1 k.1)

pub All-at {ℓ κ} : {A : Type ℓ} (P : A → Type κ) (xs : List A) {x : A} → All P xs → Memᴰ x xs → P x
All-at P [] h m = elim m [ ]
All-at P (y ∷ ys) h (Memᴰ.head e) = subst P (sym e) h.0
All-at P (y ∷ ys) h (Memᴰ.tail m) = All-at P ys h.1 m

-- `P` holds of every element because it holds of anything
pub All-intro {ℓ κ} : {A : Type ℓ} (P : A → Type κ) → ((x : A) → P x) → (xs : List A) → All P xs
All-intro P f [] = tt
All-intro P f (x ∷ xs) = (f x, All-intro P f xs)

-- no element has the key `k`
abbrev pub Absent {ℓ} : {A : Type ℓ} → (A → ℕ) → ℕ → List A → Type 0
Absent key k xs = All (λ x. key x ≢ k) xs

-- the keys are pairwise different: a primary key
abbrev pub Distinct {ℓ} : {A : Type ℓ} → (A → ℕ) → List A → Type 0
Distinct key [] = Unit
Distinct key (x ∷ xs) = Absent key (key x) xs × Distinct key xs

-- a test that fails on the whole list selects nothing
pub filterb_none {ℓ} :
    {A : Type ℓ} (p : A → Bool) (xs : List A) → All (λ x. p x ≡ false) xs → filterb p xs ≡ []
filterb_none p [] h = refl
filterb_none p (x ∷ xs) h = rw h.0 (filterb_none p xs h.1)

module _ {ℓ} {A : Type ℓ} (p q : A → Bool) where
  -- tests that agree on the list select the same
  pub filterb_cong : (xs : List A) → All (λ x. p x ≡ q x) xs → filterb p xs ≡ filterb q xs
  filterb_cong [] h = refl
  filterb_cong (x ∷ xs) h = rw h.0 (rw (filterb_cong xs h.1))

-- two lists of one length, related element by element
abbrev pub Pointwise {ℓ κ} : {A : Type ℓ} → (A → A → Type κ) → List A → List A → Type κ
Pointwise R [] [] = Unit
Pointwise R [] (y ∷ ys) = Unit → ⊥
Pointwise R (x ∷ xs) [] = Unit → ⊥
Pointwise R (x ∷ xs) (y ∷ ys) = R x y × Pointwise R xs ys

-- `k in xs`
abbrev pub elem : ℕ → List ℕ → Bool
elem k [] = false
elem k (x ∷ xs) = let rest = elem k xs in if x == k then true else rest

-- `k in keys`, of texts
abbrev pub has_text : String → List String → Bool
has_text k [] = false
has_text k (j ∷ js) = str_eq k j || has_text k js

pub has_text-append :
    (k : String) (xs ys : List String) → has_text k (xs ++ ys) ≡ (has_text k xs || has_text k ys)
has_text-append k [] ys = refl
has_text-append k (x ∷ xs) ys = ground (arith, has_text-append k xs ys)

-- two equal texts are in the same lists
pub has_text-cong :
    (j k : String) (xs : List String) → str_eq j k ≡ true → has_text j xs ≡ has_text k xs
has_text-cong j k xs e = ap (λ z. has_text z xs) ((eq_iff j k).0 e)

module _ {ℓ} {A : Type ℓ} (p : A → Bool) where
  pub filterb-append : (xs ys : List A) → filterb p (xs ++ ys) ≡ filterb p xs ++ filterb p ys
  filterb-append [] ys = refl
  filterb-append (x ∷ xs) ys = ground (arith, filterb-append xs ys)
