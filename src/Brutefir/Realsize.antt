-- ===== src/Brutefir/Realsize.antt =====
-- brutefir/fftw_convolver.cpp: the member functions that branch on `realsize`, with the functions for
-- `double` and `convolver_verify_cbuf`. A buffer has the "float" type of the size.
pub mod Dirac
pub mod Verify
mod Tests
use foo_dsp_bfir.Base.{
  ℕ, zero, suc, ◌+◌, ◌-◌, ◌/◌, ◌*◌, ℤ, Bool, true, false, not, if◌then◌else◌, List, update,
}
use foo_dsp_bfir.Brutefir.Spectrum.{Float, convolvef, convolve_inplacef, convolve_addf}
use foo_dsp_bfir.Brutefir.Mix.{MixMode, mixnscale}
use foo_dsp_bfir.Brutefir.Ordered.{convolve_inplace_ordered}

-- 4 and 8, to which the constructor limits `realsize`.
pub data Realsize : Type 0 where
  four eight : Realsize

-- `float` and `double`: the casts of a `double` to them, the quotient `1.0 / n` and its negation, and
-- the test `_finite`.
pub record Floats : Type 1 where
  pub single : Float
  pub double : Float
  pub Double : Type 0
  pub cast_single : Double → single.Value
  pub cast_double : Double → double.Value
  pub inverse_single : ℕ → single.Value
  pub inverse_double : ℕ → double.Value
  pub neg_single : single.Value → single.Value
  pub neg_double : double.Value → double.Value
  pub finite_single : single.Value → Bool
  pub finite_double : double.Value → Bool

module _ (F : Float) where
  open F use {Value, mul}

  -- A round of `dirac_convolve_inplacef`.
  unfoldable pub dirac_inplace_round : Value → Value → ℕ → (ℕ → Value) → ℕ → Value
  unfolding update
  dirac_inplace_round plus minus n b =
      let b0 = update b n (mul (b n) plus) in
      let b1 = update b0 (n + 1) (mul (b0 (n + 1)) minus) in
      let b2 = update b1 (n + 2) (mul (b1 (n + 2)) plus) in
      update b2 (n + 3) (mul (b2 (n + 3)) minus)

  unfoldable pub dirac_inplace_rounds : Value → Value → ℕ → ℕ → (ℕ → Value) → ℕ → Value
  dirac_inplace_rounds plus minus zero n b = b
  dirac_inplace_rounds plus minus (suc left) n b =
      dirac_inplace_rounds plus minus left (n + 4) (dirac_inplace_round plus minus n b)

  -- A round of `dirac_convolvef`.
  unfoldable pub dirac_round : Value → Value → (ℕ → Value) → ℕ → (ℕ → Value) → ℕ → Value
  unfolding update
  dirac_round plus minus b n d =
      let d0 = update d n (mul (b n) plus) in
      let d1 = update d0 (n + 1) (mul (b (n + 1)) minus) in
      let d2 = update d1 (n + 2) (mul (b (n + 2)) plus) in update d2 (n + 3) (mul (b (n + 3)) minus)

  unfoldable pub dirac_rounds : Value → Value → (ℕ → Value) → ℕ → ℕ → (ℕ → Value) → ℕ → Value
  dirac_rounds plus minus b zero n d = d
  dirac_rounds plus minus b (suc left) n d =
      dirac_rounds plus minus b left (n + 4) (dirac_round plus minus b n d)

-- The rounds of `for (n = 0; n < n_fft; n += 4)`.
abbrev pub dirac_count : ℕ → ℕ
dirac_count n_fft = (n_fft + 3) / 4

module _ (S : Floats) where
  abbrev pub float_of : Realsize → Float
  float_of four = S.single
  float_of eight = S.double

  abbrev pub Cbuf : Realsize → Type 0
  Cbuf four = ℕ → S.single.Value
  Cbuf eight = ℕ → S.double.Value

  unfoldable pub dirac_convolve_inplacef : ℕ → Cbuf four → Cbuf four
  unfolding dirac_inplace_rounds dirac_inplace_round
  dirac_convolve_inplacef n_fft cbuf =
      let fraction = S.inverse_single n_fft in
      dirac_inplace_rounds S.single fraction (S.neg_single fraction) (dirac_count n_fft) 0 cbuf

  unfoldable pub dirac_convolve_inplaced : ℕ → Cbuf eight → Cbuf eight
  unfolding dirac_inplace_rounds dirac_inplace_round
  dirac_convolve_inplaced n_fft cbuf =
      let fraction = S.inverse_double n_fft in
      dirac_inplace_rounds S.double fraction (S.neg_double fraction) (dirac_count n_fft) 0 cbuf

  unfoldable pub dirac_convolvef : ℕ → Cbuf four → Cbuf four → Cbuf four
  unfolding dirac_rounds dirac_round
  dirac_convolvef n_fft input_cbuf output_cbuf =
      let fraction = S.inverse_single n_fft in
      dirac_rounds S.single fraction (S.neg_single fraction) input_cbuf (dirac_count n_fft) 0
        output_cbuf

  unfoldable pub dirac_convolved : ℕ → Cbuf eight → Cbuf eight → Cbuf eight
  unfolding dirac_rounds dirac_round
  dirac_convolved n_fft input_cbuf output_cbuf =
      let fraction = S.inverse_double n_fft in
      dirac_rounds S.double fraction (S.neg_double fraction) input_cbuf (dirac_count n_fft) 0
        output_cbuf

  unfoldable pub mixnscalef :
      (ℕ → Cbuf four) → (ℕ → S.Double) → ℕ → MixMode → ℕ → Cbuf four → Cbuf four
  unfolding mixnscale
  mixnscalef input_cbufs scales n_bufs mixmode n_fft output_cbuf =
      mixnscale S.single input_cbufs (λ n. S.cast_single (scales n)) mixmode n_bufs n_fft
        output_cbuf

  unfoldable pub mixnscaled :
      (ℕ → Cbuf eight) → (ℕ → S.Double) → ℕ → MixMode → ℕ → Cbuf eight → Cbuf eight
  unfolding mixnscale
  mixnscaled input_cbufs scales n_bufs mixmode n_fft output_cbuf =
      mixnscale S.double input_cbufs (λ n. S.cast_double (scales n)) mixmode n_bufs n_fft
        output_cbuf

  unfoldable pub convolve_inplaced : ℕ → Cbuf eight → Cbuf eight → Cbuf eight
  unfolding convolve_inplacef
  convolve_inplaced = convolve_inplacef S.double

  unfoldable pub convolved : ℕ → Cbuf eight → Cbuf eight → Cbuf eight → Cbuf eight
  unfolding convolvef
  convolved = convolvef S.double

  unfoldable pub convolve_addd : ℕ → Cbuf eight → Cbuf eight → Cbuf eight → Cbuf eight
  unfolding convolve_addf
  convolve_addd = convolve_addf S.double

  unfoldable pub convolver_mixnscale :
      (r : Realsize) → (ℕ → Cbuf r) → (ℕ → S.Double) → ℕ → MixMode → ℕ → Cbuf r → Cbuf r
  unfolding mixnscalef mixnscaled
  convolver_mixnscale four = mixnscalef
  convolver_mixnscale eight = mixnscaled

  unfoldable pub convolver_convolve_inplace : (r : Realsize) → ℕ → Cbuf r → Cbuf r → Cbuf r
  unfolding convolve_inplacef convolve_inplaced
  convolver_convolve_inplace four = convolve_inplacef S.single
  convolver_convolve_inplace eight = convolve_inplaced

  unfoldable pub convolver_convolve : (r : Realsize) → ℕ → Cbuf r → Cbuf r → Cbuf r → Cbuf r
  unfolding convolvef convolved
  convolver_convolve four = convolvef S.single
  convolver_convolve eight = convolved

  unfoldable pub convolver_convolve_add : (r : Realsize) → ℕ → Cbuf r → Cbuf r → Cbuf r → Cbuf r
  unfolding convolve_addf convolve_addd
  convolver_convolve_add four = convolve_addf S.single
  convolver_convolve_add eight = convolve_addd

  unfoldable pub convolver_dirac_convolve_inplace : (r : Realsize) → ℕ → Cbuf r → Cbuf r
  unfolding dirac_convolve_inplacef dirac_convolve_inplaced
  convolver_dirac_convolve_inplace four = dirac_convolve_inplacef
  convolver_dirac_convolve_inplace eight = dirac_convolve_inplaced

  unfoldable pub convolver_dirac_convolve : (r : Realsize) → ℕ → Cbuf r → Cbuf r → Cbuf r
  unfolding dirac_convolvef dirac_convolved
  convolver_dirac_convolve four = dirac_convolvef
  convolver_dirac_convolve eight = dirac_convolved

  abbrev pub finite_at : (r : Realsize) → Cbuf r → ℕ → Bool
  finite_at four cbuf i = S.finite_single (cbuf i)
  finite_at eight cbuf i = S.finite_double (cbuf i)

  -- The loops of `convolver_verify_cbuf`, with `left` rounds from `i` or `n` on.
  unfoldable pub verify_entries : (r : Realsize) → Cbuf r → ℕ → ℕ → Bool
  verify_entries r cbuf zero i = true
  verify_entries r cbuf (suc left) i =
      if not (finite_at r cbuf i) then false else verify_entries r cbuf left (i + 1)

  unfoldable pub verify_cbufs : (r : Realsize) → (ℕ → Cbuf r) → ℕ → ℕ → ℕ → Bool
  unfolding verify_entries
  verify_cbufs r cbufs n_fft zero n = true
  verify_cbufs r cbufs n_fft (suc left) n =
      if not (verify_entries r (cbufs n) n_fft 0)
      then false
      else verify_cbufs r cbufs n_fft left (n + 1)

  unfoldable pub convolver_verify_cbuf : (r : Realsize) → ℕ → (ℕ → Cbuf r) → ℕ → Bool
  unfolding verify_cbufs
  convolver_verify_cbuf r n_fft cbufs n_cbufs = verify_cbufs r cbufs n_fft n_cbufs 0
