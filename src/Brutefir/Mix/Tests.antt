-- ===== src/Brutefir/Mix/Tests.antt =====
-- Tests of `mixnscale` of brutefir/fftw_convolver.cpp, and the theorem about it at concrete buffers.
use foo_dsp_bfir.Base.{ℕ, ◌+◌, ◌-◌, ◌*◌, ◌≡◌, refl, arith, if◌then◌else◌, ltb, update}
use foo_dsp_bfir.Brutefir.Spectrum.{Float}
use foo_dsp_bfir.Brutefir.Mix.{
  mixnscale, mixmode_input, mixmode_output, mix_input, input_many, input_case, rounds, store_many,
  store_all, accumulate, add_all,
}
use foo_dsp_bfir.Brutefir.Mix.Slots.{mixed}
use foo_dsp_bfir.Brutefir.Mix.Passes.{input_index, output_index, mixnscale_lem}

abbrev numbers : Float
numbers = record { Value = ℕ; add = λ x y. x + y; sub = λ x y. x - y; mul = λ x y. x * y }

-- Buffers that count up from the tens of their number.
abbrev tens : ℕ → ℕ → ℕ
tens i x = 10 * i + x

-- Six buffers take the default case: the imaginary part of the second number.
sixth_entry : mixnscale numbers tens (λ i. 1) mixmode_input 6 16 (λ x. 0) 5 ≡ 6 * 15 + 150
unfolding mixnscale mix_input input_many input_case rounds store_many store_all accumulate add_all
    update
sixth_entry = refl

mixnscale_lem_example :
    (mixnscale numbers tens (λ i. 1) mixmode_input 3 (8 * 2) (λ x. 0) 13
      ≡ (if ltb 13 (8 * 2) then mixed numbers tens (λ i. 1) 3 (input_index (8 * 2) 13) else 0))
    × (mixnscale numbers tens (λ i. 1) mixmode_output 3 (8 * 2) (λ x. 0) 13
        ≡ (if ltb 13 (8 * 2) then mixed numbers tens (λ i. 1) 3 (output_index (8 * 2) 13) else 0))
mixnscale_lem_example = mixnscale_lem numbers tens (λ i. 1) 3 2 13 (λ x. 0) (omega arith)
