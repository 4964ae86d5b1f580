-- ===== src/Model/Floats.antt =====
-- Python's `float`, and the numbers that the database aggregates. The four comparisons are
-- operations of an abstract type, with no law assumed of them: a NaN is a value like another.
use ghostmon.Base.{ℕ, Bool, Option, List, leb, ltb, none, some, [], ◌∷◌}

pub record Floats (F : Type 0) : Type 0 where
  pub gt : F → F → Bool
  pub ge : F → F → Bool
  pub lt : F → F → Bool
  pub le : F → F → Bool
  -- float(n) of an int
  pub of_int : ℕ → F

-- The aggregates of the database over a column: `none` is NULL.
pub record Aggregates (F : Type 0) : Type 0 where
  pub avg : List F → Option F
  pub min : List F → Option F
  pub max : List F → Option F

-- Numbers whose values are natural, for tests.
instance abbrev pub nat_floats : Floats ℕ
nat_floats = record {
  gt = λ a b. ltb b a;
  ge = λ a b. leb b a;
  lt = λ a b. ltb a b;
  le = λ a b. leb a b;
  of_int = λ n. n;
}

abbrev first_of_column : List ℕ → Option ℕ
first_of_column [] = none
first_of_column (x ∷ xs) = some x

instance abbrev pub nat_aggregates : Aggregates ℕ
nat_aggregates = record { avg = first_of_column; min = first_of_column; max = first_of_column }
