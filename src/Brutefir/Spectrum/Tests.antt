-- ===== src/Brutefir/Spectrum/Tests.antt =====
-- Tests of the products of spectra of brutefir/fftw_convolver.cpp, and the theorems about them at
-- concrete buffers of integers.
use foo_dsp_bfir.Base.{ℕ, ◌+◌, ◌-◌, ◌*◌, ◌<◌, ◌≡◌, refl, update}
use foo_dsp_bfir.Brutefir.Spectrum.{
  Float, convolvef, convolve_rounds, convolve_round, convolve_addf,
}
use foo_dsp_bfir.Brutefir.Spectrum.Sum.{IsIncreased, convolve_addf_lem}

abbrev numbers : Float
numbers = record { Value = ℕ; add = λ x y. x + y; sub = λ x y. x - y; mul = λ x y. x * y }

abbrev ramp : ℕ → ℕ
ramp n = n + 1

abbrev ones : ℕ → ℕ
ones n = 1

third_entry : convolvef numbers 16 ramp ones ones 7 ≡ 12
unfolding convolvef convolve_rounds convolve_round update
third_entry = refl

convolve_addf_lem_example :
    let d' = convolve_addf numbers 16 ramp ones ones in
    (d' 0 ≡ 1 + ramp 0 * 1)
    × (d' 4 ≡ 1 + ramp 4 * 1)
    × ((g j : ℕ)
        → 8 * g < 16
        → j < 4
        → 0 < 8 * g + j
        → IsIncreased numbers ramp ones ones d' (8 * g + j))
convolve_addf_lem_example = convolve_addf_lem numbers 16 ramp ones ones
