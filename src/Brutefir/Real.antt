-- ===== src/Brutefir/Real.antt =====
-- `double`, as the type and the operations on it that brutefir/brutefir.cpp uses.
use foo_dsp_bfir.Base.{ℤ}

pub record Real : Type 1 where
  pub Double : Type 0
  pub of_int : ℤ → Double
  pub reciprocal : Double → Double
  pub pred : Double → Double
