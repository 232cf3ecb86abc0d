-- ===== src/Brutefir/Sample/Precision.antt =====
-- The "float" type of a convolver, `float` or `double`, as the type and the operations on it that
-- brutefir/raw2real.cpp, brutefir/real2raw.cpp and brutefir/dither.cpp use.
use foo_dsp_bfir.Base.{ℕ, ℤ, Bool}
use foo_dsp_bfir.Brutefir.Real.{Real}

-- `widen` and `narrow` convert to `double` and back, `trunc` is the cast to `int32_t`, and
-- `add_half` adds 0.5. `bits32` are the bits of a value as a `float` and `bits64` those as a
-- `double`: the value is cast first, where it is of the other type.
pub record Precision (R : Real) : Type 1 where
  pub Value : Type 0
  pub lt : Value → Value → Bool
  pub le : Value → Value → Bool
  pub add : Value → Value → Value
  pub sub : Value → Value → Value
  pub neg : Value → Value
  pub of_int : ℤ → Value
  pub trunc : Value → ℤ
  pub add_half : Value → Value
  pub widen : Value → R.Double
  pub narrow : R.Double → Value
  pub bits32 : Value → ℕ
  pub bits64 : Value → ℕ
  pub of_bits32 : ℕ → Value
  pub of_bits64 : ℕ → Value
  pub lt_double : R.Double → R.Double → Bool
  pub neg_double : R.Double → R.Double
  pub add_double : R.Double → R.Double → R.Double
  pub mul_double : R.Double → R.Double → R.Double
