-- ===== src/Brutefir/Ordered/Chain.antt =====
-- brutefir/fftw_convolver.cpp: the chain of `mixnscale`, `convolvef` and `mixnscale` of the filter, and
-- the product of half-complex buffers that it stands for.
use foo_dsp_bfir.Base.{
  ℕ, ◌+◌, ◌-◌, ◌*◌, ◌/◌, ◌%◌, ◌≤◌, ◌<◌, ◌≡◌, refl, ◌∙◌, sym, ap, subst, arith, dec_lt, ℕ_discrete,
}
use foo_dsp_bfir.Brutefir.Spectrum.{Float, convolvef}
use foo_dsp_bfir.Brutefir.Spectrum.Product.{IsSpectrumProduct, convolvef-IsSpectrumProduct}
use foo_dsp_bfir.Brutefir.Mix.{Buffer, mixnscale, mixmode_input, mixmode_output}
use foo_dsp_bfir.Brutefir.Mix.Slots.{mixed}
use foo_dsp_bfir.Brutefir.Mix.Passes.{
  input_index, output_index, mixnscale_lem, if_lt, output_index-lt, input_index-output_index,
}
use foo_dsp_bfir.Brutefir.Ordered.{convolve_inplace_ordered}
use foo_dsp_bfir.Brutefir.Ordered.Product.{product_at, convolve_inplace_ordered_lem}

ordered-product :
    (F : Float) (m : ℕ) (b c : ℕ → F.Value) (k : ℕ)
    → 1 ≤ m
    → k < 8 * m
    → convolve_inplace_ordered F b c (8 * m) k ≡ product_at F (8 * m) b c k
ordered-product F m b c k one h =
    subst (λ size. convolve_inplace_ordered F b c size k ≡ product_at F size b c k)
      {x = 2 * (4 * m)} (omega arith)
      (convolve_inplace_ordered_lem F (4 * m) k b c (omega arith) (omega arith))

module _ (F : Float) (m : ℕ) (b c d b' c' : ℕ → F.Value)
    (b_eq : (k : ℕ) → k < 8 * m → b k ≡ b' (input_index (8 * m) k))
    (c_eq : (k : ℕ) → k < 8 * m → c k ≡ c' (input_index (8 * m) k))
    (product : IsSpectrumProduct F (8 * m) b c d) where
  real_entry :
      (k : ℕ)
      → k < 8 * m
      → k % 8 < 4
      → 0 < k
      → d k ≡ product_at F (8 * m) b' c' (input_index (8 * m) k)
  real_entry k h low pos = ground (
    arith,
    product.2 (k / 8) (k % 8) (omega arith) low (omega arith),
    b_eq k h,
    c_eq k h,
    b_eq (k + 4) (omega arith),
    c_eq (k + 4) (omega arith),
  )

  imaginary_entry :
      (k : ℕ)
      → k < 8 * m
      → 4 ≤ k % 8
      → 4 < k
      → d k ≡ product_at F (8 * m) b' c' (input_index (8 * m) k)
  imaginary_entry k h high pos = ground (
    arith,
    product.2 (k / 8) (k % 8 - 4) (omega arith) (omega arith) (omega arith),
    b_eq k h,
    c_eq k h,
    b_eq (k - 4) (omega arith),
    c_eq (k - 4) (omega arith),
  )

  entry : (k : ℕ) → k < 8 * m → d k ≡ product_at F (8 * m) b' c' (input_index (8 * m) k)
  entry k h = elim (ℕ_discrete k 0) [
    | yes zero_ ↦ rw zero_ (ground (arith, product.0, b_eq 0 (omega arith), c_eq 0 (omega arith)))
    | no nonzero ↦ elim (ℕ_discrete k 4) [
      | yes four ↦ rw four (ground (arith, product.1, b_eq 4 (omega arith), c_eq 4 (omega arith)))
      | no other ↦ elim (dec_lt (k % 8) 4) [
        | yes low ↦ real_entry k h low (omega arith)
        | no high ↦ imaginary_entry k h (omega arith) (omega arith)
      ]
    ]
  ]

-- The way of a block through the frequency domain, for a length that is a positive multiple of 8:
-- any number of half-complex inputs are mixed into groups of eight, so is a block of coefficients,
-- the two are convolved, and the result is mixed back with a scale. What comes out is the product
-- that `convolve_inplace_ordered` forms of the two mixes in the half-complex layout, times that
-- scale, whatever stood in the three buffers.
pub mixnscale-convolvef :
    (F : Float) (ibufs cbufs : ℕ → Buffer F) (sscales cscales out_scales : ℕ → F.Value)
    (n_bufs n_coeffs m k : ℕ) (input coeffs output obuf : Buffer F)
    → 1 ≤ m
    → k < 8 * m
    → mixnscale F
        (λ i.
          convolvef F
            (8 * m)
            (mixnscale F ibufs sscales mixmode_input n_bufs (8 * m) input)
            (mixnscale F cbufs cscales mixmode_input n_coeffs (8 * m) coeffs)
            output)
        out_scales
        mixmode_output
        1
        (8 * m)
        obuf
        k
      ≡ F.mul
          (convolve_inplace_ordered F
            (mixed F ibufs sscales n_bufs)
            (mixed F cbufs cscales n_coeffs)
            (8 * m)
            k)
          (out_scales 0)
mixnscale-convolvef F ibufs cbufs sscales cscales out_scales n_bufs n_coeffs m k input coeffs output
      obuf one h =
    let b = mixnscale F ibufs sscales mixmode_input n_bufs (8 * m) input in
    let c = mixnscale F cbufs cscales mixmode_input n_coeffs (8 * m) coeffs in
    let d = convolvef F (8 * m) b c output in
    let b' = mixed F ibufs sscales n_bufs in
    let c' = mixed F cbufs cscales n_coeffs in
    let index = output_index (8 * m) k in
    let below = output_index-lt (8 * m) m k refl h in
    (mixnscale_lem F (λ i. d) out_scales 1 m k obuf one).1
    ∙ if_lt k (8 * m) _ _ h
    ∙ ap (λ (v : F.Value). F.mul v (out_scales 0))
        (entry F m b c d b' c'
            (λ j hj.
              (mixnscale_lem F ibufs sscales n_bufs m j input one).0 ∙ if_lt j (8 * m) _ _ hj)
            (λ j hj.
              (mixnscale_lem F cbufs cscales n_coeffs m j coeffs one).0 ∙ if_lt j (8 * m) _ _ hj)
            (convolvef-IsSpectrumProduct F (8 * m) b c output) index below
          ∙ ap (product_at F (8 * m) b' c') (input_index-output_index (8 * m) m k refl h)
          ∙ sym (ordered-product F m b' c' k one h))
