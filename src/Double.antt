-- ===== src/Double.antt =====
-- What the code does with a `float64`: parsing, products, quotients, comparisons and rounding, which
-- strconv, math and the compiler define.
use tcsss.Prelude.Int.{ℤ}
use tcsss.Prelude.{ℕ, Bool, Option}
use tcsss.Text.Ops.{Text}

pub record Double (W : Type 0) : Type 0 where
  -- `strconv.ParseFloat(s, 64)`; `none` is its error.
  pub parse : Text → Option W
  pub of_nat : ℕ → W
  -- The constant n / d.
  pub ratio : ℕ → ℕ → W
  pub mul : W → W → W
  pub div : W → W → W
  pub lt : W → W → Bool
  pub le : W → W → Bool
  -- `math.Round`, and the conversion to int.
  pub round : W → W
  pub to_int : W → ℤ
