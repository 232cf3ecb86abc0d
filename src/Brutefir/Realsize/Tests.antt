-- ===== src/Brutefir/Realsize/Tests.antt =====
-- The theorem about the convolution with a Dirac impulse of brutefir/fftw_convolver.cpp at concrete
-- buffers, and tests.
use foo_dsp_bfir.Base.{ℕ, ◌+◌, ◌-◌, ◌*◌, ◌≡◌, refl, arith, false, leb}
use foo_dsp_bfir.Brutefir.Spectrum.{Float}
use foo_dsp_bfir.Brutefir.Realsize.{
  Floats, four, eight, convolver_dirac_convolve, convolver_dirac_convolve_inplace,
  convolver_verify_cbuf, verify_cbufs, verify_entries,
}
use foo_dsp_bfir.Brutefir.Realsize.Dirac.{dirac_at, convolver_dirac_convolve_lem}

abbrev numbers : Float
numbers = record { Value = ℕ; add = λ x y. x + y; sub = λ x y. x - y; mul = λ x y. x * y }

abbrev both_numbers : Floats
both_numbers = record {
  single = numbers;
  double = numbers;
  Double = ℕ;
  cast_single = λ x. x;
  cast_double = λ x. x;
  inverse_single = λ n. n + 1;
  inverse_double = λ n. n + 2;
  neg_single = λ x. 100 + x;
  neg_double = λ x. 200 + x;
  finite_single = λ x. leb x 9;
  finite_double = λ x. leb x 9;
}

abbrev ramp : ℕ → ℕ
ramp x = x + 1

convolver_dirac_convolve_lem_example :
    (convolver_dirac_convolve_inplace both_numbers four (4 * 2) ramp 3
      ≡ 4 * dirac_at numbers 9 109 3)
    × (convolver_dirac_convolve both_numbers four (4 * 2) ramp ramp 3
        ≡ 4 * dirac_at numbers 9 109 3)
    × (convolver_dirac_convolve_inplace both_numbers eight (4 * 2) ramp 3
        ≡ 4 * dirac_at numbers 10 210 3)
    × (convolver_dirac_convolve both_numbers eight (4 * 2) ramp ramp 3
        ≡ 4 * dirac_at numbers 10 210 3)
convolver_dirac_convolve_lem_example =
    convolver_dirac_convolve_lem both_numbers 2 3 ramp ramp ramp ramp (omega arith)

-- The tenth entry of the second buffer is not finite.
not_verified : convolver_verify_cbuf both_numbers four 10 (λ n x. n + x) 2 ≡ false
unfolding convolver_verify_cbuf verify_cbufs verify_entries
not_verified = refl
