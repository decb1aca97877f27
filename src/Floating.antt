-- ===== src/Floating.antt =====
-- `double` and `long double`, which the language has no model of: a type with the operations that
-- the code calls. Definitions take it as an instance argument; what a theorem needs of the order or
-- the arithmetic is a hypothesis of that theorem.
use time_series_engine.Base.{ℕ, ℤ, Bool}

pub record Floating (D : Type 0) : Type 0 where
  -- `std::isfinite`
  pub is_finite : D → Bool
  -- `static_cast<double>` of an integer
  pub of_int : ℤ → D
  pub zero : D
  pub add : D → D → D
  pub mul : D → D → D
  -- `std::numeric_limits<double>::infinity()` and its negation
  pub infinity : D
  pub negative_infinity : D
  -- `a <= b`
  pub le : D → D → Bool
  -- `a < b`
  pub lt : D → D → Bool

-- `long double` sums of `double` values.
pub record Extended (D L : Type 0) : Type 0 where
  pub zero : L
  -- `static_cast<long double>`
  pub widen : D → L
  pub add : L → L → L
  pub sub : L → L → L
  -- `static_cast<double>(sum / static_cast<long double>(count))`
  pub average : L → ℕ → D
