-- ===== src/Brutefir/Ordered/Tests.antt =====
-- Tests of the products of half-complex buffers of brutefir/fftw_convolver.cpp, and the theorem about the
-- chain at concrete buffers.
use foo_dsp_bfir.Base.{ℕ, ◌+◌, ◌-◌, ◌*◌, ◌≡◌, refl, arith, update}
use foo_dsp_bfir.Brutefir.Spectrum.{Float, convolvef}
use foo_dsp_bfir.Brutefir.Mix.{mixnscale, mixmode_input, mixmode_output}
use foo_dsp_bfir.Brutefir.Mix.Slots.{mixed}
use foo_dsp_bfir.Brutefir.Ordered.{convolve_inplace_ordered, ordered_rounds, ordered_round}
use foo_dsp_bfir.Brutefir.Ordered.Chain.{mixnscale-convolvef}

abbrev numbers : Float
numbers = record { Value = ℕ; add = λ x y. x + y; sub = λ x y. x - y; mul = λ x y. x * y }

abbrev ramp : ℕ → ℕ
ramp x = x + 1

-- The imaginary part of the number at 1, in a buffer of 8 entries.
last_entry : convolve_inplace_ordered numbers ramp ramp 8 7 ≡ 2 * 8 + 8 * 2
unfolding convolve_inplace_ordered ordered_rounds ordered_round update
last_entry = refl

mixnscale-convolvef_example :
    mixnscale numbers
      (λ i.
        convolvef numbers
          (8 * 2)
          (mixnscale numbers (λ i. ramp) (λ i. 1) mixmode_input 2 (8 * 2) ramp)
          (mixnscale numbers (λ i. ramp) (λ i. 1) mixmode_input 1 (8 * 2) ramp)
          ramp)
      (λ i. 3)
      mixmode_output
      1
      (8 * 2)
      ramp
      5
    ≡ convolve_inplace_ordered numbers
        (mixed numbers (λ i. ramp) (λ i. 1) 2)
        (mixed numbers (λ i. ramp) (λ i. 1) 1)
        (8 * 2)
        5
      * 3
mixnscale-convolvef_example =
    mixnscale-convolvef numbers (λ i. ramp) (λ i. ramp) (λ i. 1) (λ i. 1) (λ i. 3) 2 1 2 5 ramp ramp
      ramp ramp (omega arith) (omega arith)
