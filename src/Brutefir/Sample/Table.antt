-- ===== src/Brutefir/Sample/Table.antt =====
-- brutefir/dither.cpp and brutefir/fftw_convolver.cpp: the table of random numbers, as the constructor
-- makes it and the conversions of the channels read it, in any order.
use foo_dsp_bfir.Base.{ℕ, ℤ}
use foo_dsp_bfir.Brutefir.Real.{Real}
use foo_dsp_bfir.Brutefir.Sample.Precision.{Precision}
use foo_dsp_bfir.Brutefir.Sample.Quantize.{Dither, DitherState}
use foo_dsp_bfir.Brutefir.Sample.Dither.{dither_with}
use foo_dsp_bfir.Brutefir.Sample.Machine.{Machine}

module _ {R : Real} (P : Precision R) where
  module _ (n_channels : ℕ) (randtab : ℕ → ℤ) (memory : ℤ → P.Value) (old : ℕ → DitherState P) where
    abbrev created : ℕ → Dither P × (ℕ → DitherState P)
    created = dither_with P n_channels randtab memory old
