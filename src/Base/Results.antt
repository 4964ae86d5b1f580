-- ===== src/Base/Results.antt =====
-- What a call gives that may end in an exception which the caller does not catch.
use mathlib.Core.Path.{◌≡◌, refl, ap}
use mathlib.Core.Option.{Option, none, some}
use mathlib.Core.Logic.{◌⊎◌, inl, inr}

-- OSError and TimeoutError, the database's IntegrityError, and the others
pub data Exception : Type 0 where
  os_error integrity_error other : Exception

pub data Result {ℓ} (A : Type ℓ) : Type ℓ where
  raised : Exception → Result A
  ok : A → Result A

-- the rest of a body after a call, which an exception skips
infixl 5 ◌>>=◌
abbrev pub ◌>>=◌ {ℓ κ} : {A : Type ℓ} {B : Type κ} → Result A → (A → Result B) → Result B
raised e >>= rest = raised e
ok value >>= rest = rest value

pub Result-cases {ℓ} :
    {A : Type ℓ} (r : Result A) → ((e : Exception) × (r ≡ raised e)) ⊎ ((a : A) × (r ≡ ok a))
Result-cases (raised e) = inl (e, refl)
Result-cases (ok a) = inr (a, refl)

-- where a body ends well, so did the call before its rest
pub call_returned {ℓ κ} :
    {A : Type ℓ} {B : Type κ} {b : B} (call : Result A) (rest : A → Result B)
    → (call >>= rest) ≡ ok b
    → (a : A) × (call ≡ ok a) × (rest a ≡ ok b)
call_returned (raised e) rest returned = cc returned
call_returned (ok value) rest returned = (value, refl, returned)

abbrev ok_or {ℓ} : {A : Type ℓ} → A → Result A → A
ok_or d (ok a) = a
ok_or d (raised e) = d

pub ok_inj {ℓ} : {A : Type ℓ} {a b : A} → ok a ≡ ok b → a ≡ b
ok_inj {a} e = ap (ok_or a) e

-- What a PATCH gives a column that may not be NULL: `none` is a field that is not set, and an explicit
-- null is refused by the database.
abbrev pub set_required {ℓ} : {A : Type ℓ} → Option (Option A) → A → Result A
set_required none old = ok old
set_required (some none) old = raised integrity_error
set_required (some (some new)) old = ok new
