-- ===== src/Brutefir/Convolver.antt =====
-- What brutefir/brutefir.cpp uses of the class `fftw_convolver` of brutefir/fftw_convolver.cpp, as
-- operations on buffers of samples, and the two functions of that class that convert between raw
-- buffers and the halves of a time domain buffer.
use foo_dsp_bfir.Base.{ℕ, Bool, List, ◌++◌, ◌≡◌, take, drop, length}
use foo_dsp_bfir.Brutefir.Real.{Real}
use foo_dsp_bfir.Brutefir.Config.{BufferFormat, Overflow}

-- `Sample` is the "float" type of `realsize` bytes, `Raw` a raw interleaved buffer, and
-- `DitherState` the `dither_state_t` of a channel. `fft` and `ifft` are the transforms of FFTW.
-- `mix_input` and `mix_output` are `convolver_mixnscale` on one buffer, in its two modes;
-- `is_finite` is the test of the first sample of a buffer, `finite` that of a sample, and `scaled`
-- the product with a `double` as `convolver_coeffs2cbuf` forms it. `raw2real` is `raw2realf` or `raw2reald`
-- on `n_fft2` samples, and `real2raw` is the branch of `convolver_cbuf2raw` for a dither flag.
pub record Convolver (R : Real) : Type 1 where
  pub Sample : Type 0
  pub Raw : Type 0
  pub DitherState : Type 0
  pub n_fft2 : ℕ
  pub raw2real : BufferFormat R → Raw → List Sample
  pub real2raw :
      BufferFormat R
      → Bool
      → List Sample
      → Raw
      → Overflow R
      → DitherState
      → Raw × Overflow R × DitherState
  pub fft : List Sample → List Sample
  pub ifft : List Sample → List Sample
  pub mix_input : R.Double → List Sample → List Sample
  pub mix_output : R.Double → List Sample → List Sample
  pub convolve : List Sample → List Sample → List Sample
  pub convolve_inplace : List Sample → List Sample → List Sample
  pub convolve_add : List Sample → List Sample → List Sample → List Sample
  pub is_finite : List Sample → Bool
  pub zero_sample : Sample
  pub scaled : R.Double → Sample → Sample
  pub finite : Sample → Bool

-- What a client relies on: a conversion fills half a buffer, and the convolution in place gives
-- what the one into another buffer gives.
pub record IsLawful {R : Real} (cv : Convolver R) : Type 0 where
  pub length-raw2real :
      (bf : BufferFormat R) (raw : cv.Raw) → length (cv.raw2real bf raw) ≡ cv.n_fft2
  pub inplace : (x h : List cv.Sample) → cv.convolve_inplace x h ≡ cv.convolve x h

module _ {R : Real} (cv : Convolver R) where
  -- `convolver_raw2cbuf` with no postprocessing: `cbuf` and `next_cbuf` afterwards. The samples go
  -- into the first half of `next_cbuf` and from there into the second half of `cbuf`.
  unfoldable pub raw2cbuf :
      BufferFormat R → cv.Raw → List cv.Sample → List cv.Sample → List cv.Sample × List cv.Sample
  raw2cbuf bf raw cbuf next_cbuf =
      let samples = cv.raw2real bf raw in
      (take cv.n_fft2 cbuf ++ samples, samples ++ drop cv.n_fft2 next_cbuf)
