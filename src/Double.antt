-- ===== src/Double.antt =====
-- All that the code does with a `double`. Floating-point numbers are a parameter of the model.
use currency_converter_demo.Base.{Bool, Str, ℕ}

pub record Double (D : Type 0) : Type 0 where
  pub is_finite : D → Bool
  pub lt : D → D → Bool
  pub gt : D → D → Bool
  pub mul : D → D → D
  -- the `double` nearest to n / 100, for the literals of the code
  pub of_hundredths : ℕ → D
  -- `fmt::format("{}", x)`
  pub show : D → Str
