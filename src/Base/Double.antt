-- ===== src/Base/Double.antt =====
-- JavaScript numbers that are fractions. The language's floating-point operations are a parameter
-- of the model: a number is its bit pattern, and `DoubleOps` gives the operations by which the
-- code computes. What a theorem needs of them is a hypothesis that it names.
use mirth_spool.Base.{ℕ, Bool}
use mirth_spool.Base.Int.{ℤ}

pub data Double : Type 0 where
  bits : ℕ → Double

pub record DoubleOps : Type 0 where
  pub of_ℤ : ℤ → Double
  pub add : Double → Double → Double
  pub sub : Double → Double → Double
  pub mul : Double → Double → Double
  pub div : Double → Double → Double
  pub neg : Double → Double
  pub abs : Double → Double
  pub sign : Double → Double
  pub min : Double → Double → Double
  pub max : Double → Double → Double
  pub exp : Double → Double
  pub ceil : Double → ℕ
  pub log1p : Double → Double
  -- Number(x.toFixed(digits))
  pub to_fixed : ℕ → Double → Double
  -- x < y and x === y
  pub lt : Double → Double → Bool
  pub eq : Double → Double → Bool
