-- ===== src/Runtime.antt =====
-- What the core takes from Python itself: `float`, of which the core reads only comparisons,
-- sums, products, quotients and `round(x, 6)`, and `repr` of the leaves of a property value.
pub mod Int
unfoldable pub use Int.{int_eq, int_of_bool}
pub use Int.{ℤ}
use structural_reconciliatio.Base.{ℕ, String, Bool, List, not, ◌&&◌, if◌then◌else◌}

pub record Runtime : Type 1 where
  pub Float : Type 0
  -- `a <= b`, which is false where a side is NaN
  pub le : Float → Float → Bool
  pub add : Float → Float → Float
  pub sub : Float → Float → Float
  pub div : Float → Float → Float
  pub mul : Float → Float → Float
  -- the literal `m` / 10 ^ `k`: `decimal 15 1` is `1.5`
  pub decimal : ℕ → ℕ → Float
  -- `float(n)` of a count
  pub of_count : ℕ → Float
  -- `round(x, 6)`
  pub round6 : Float → Float
  -- `sum(xs)`, which is compensated and so no plain fold of `add`
  pub sum : List Float → Float
  -- `x == n` of a float and an int
  pub eq_int : Float → ℤ → Bool
  pub repr_text : String → String
  pub repr_int : ℤ → String
  pub repr_float : Float → String

module _ ⦃R : Runtime⦄ where
  abbrev pub Float : Type 0
  Float = R.Float

  infix 50 ◌<=◌
  abbrev pub ◌<=◌ : Float → Float → Bool
  a <= b = R.le a b

  -- `a < b`, and `a == b`: on floats both follow from `<=`, also at NaN.
  abbrev pub lt : Float → Float → Bool
  lt a b = R.le a b && not (R.le b a)

  abbrev pub float_eq : Float → Float → Bool
  float_eq a b = R.le a b && R.le b a

  -- `min(a, b)`, and `max(a, b)` of the largest so far and the next one
  abbrev pub min_float : Float → Float → Float
  min_float a b = if lt b a then b else a

  abbrev pub max_float : Float → Float → Float
  max_float a b = if lt a b then b else a

  abbrev pub float_zero : Float
  float_zero = R.decimal 0 0

  abbrev pub float_one : Float
  float_one = R.decimal 1 0
