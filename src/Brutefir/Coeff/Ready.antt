-- ===== src/Brutefir/Coeff/Ready.antt =====
-- The two sides of the coefficients: what `set_coeff` of brutefir/brutefir.cpp leaves is what `run`
-- reads.
use foo_dsp_bfir.Base.{
  ℕ, suc, ◌<◌, ◌≤◌, ◌≡◌, refl, arith, true, Option, some, List, [], ◌∷◌, map, drop, length, ap, sym,
  ◌∙◌, subst,
}
use foo_dsp_bfir.Brutefir.Real.{Real}
use foo_dsp_bfir.Brutefir.Convolver.{Convolver}
use foo_dsp_bfir.Brutefir.Filter.{Buffer}
use foo_dsp_bfir.Brutefir.Run.{HasCoeffs}
use foo_dsp_bfir.Brutefir.Coeff.{Coeffs, set_coeff}
use foo_dsp_bfir.Brutefir.Coeff.Partition.{
  AllFinite, halves, transformed, block_of, preprocess_blocks-eq, length-halves,
}
use foo_dsp_bfir.Brutefir.Coeff.Store.{set_coeff-loaded}

module _ {R : Real} (cv : Convolver R) (scale : R.Double) where
  open cv use {Sample, n_fft2, zero_sample, scaled, finite}

  map-block_of :
      (hs : List (List Sample))
      → map (block_of cv scale) hs ≡ map some (map (transformed cv scale) hs)
  map-block_of [] = refl
  map-block_of (h ∷ hs) =
      ap (λ (r : List (Option (Buffer cv))). block_of cv scale h ∷ r) (map-block_of hs)

  length-transformed :
      (hs : List (List Sample)) → length (map (transformed cv scale) hs) ≡ length hs
  length-transformed [] = refl
  length-transformed (h ∷ hs) = ap suc (length-transformed hs)

  -- The coefficient blocks of a channel: its coefficients cut into half buffers.
  abbrev pub blocks_of : ℕ → (ℕ → List Sample) → ℕ → List (Buffer cv)
  blocks_of coeff_blocks cs m = map (transformed cv scale) (halves cv scale coeff_blocks (cs m))

  -- After `set_coeff` the coefficients are as `run` needs them. Where zero stays zero under the scale,
  -- and each channel has a buffer of `len` coefficients whose products are all finite, for a number
  -- of blocks above 0 and not above that of the filter: each channel has as many blocks as were asked
  -- for, none of them NULL, and they are the transforms of its scaled coefficients, cut into half
  -- buffers.
  pub set_coeff-HasCoeffs :
      (coeffs : ℕ → Option (List Sample)) (cs : ℕ → List Sample) (n_coeffs len coeff_blocks : ℕ)
      (s : Coeffs cv)
      → scaled scale zero_sample ≡ zero_sample
      → finite zero_sample ≡ true
      → s.filter_length ≡ n_fft2
      → s.conf.n_channels ≤ n_coeffs
      → 0 < coeff_blocks
      → coeff_blocks ≤ s.conf.n_blocks
      → ((m : ℕ)
          → m < s.conf.n_channels
          → (coeffs m ≡ some (cs m)) × (length (cs m) ≡ len) × AllFinite cv scale (cs m))
      → HasCoeffs cv
          (set_coeff cv coeffs n_coeffs len coeff_blocks scale s).0.conf
          (blocks_of coeff_blocks cs)
  set_coeff-HasCoeffs coeffs cs n_coeffs len coeff_blocks s sz fz fl enough some_blocks fits given =
      let (code, ready, (channels, n_blocks, i, o, l), loaded) =
        set_coeff-loaded cv coeffs cs n_coeffs len coeff_blocks scale s enough
          (λ m h. (given m h).0) in
      let counted = λ (m : ℕ).
        length-transformed (halves cv scale coeff_blocks (cs m))
        ∙ length-halves cv scale coeff_blocks (cs m) in
      let inside = λ (m : ℕ) (h : m < _). subst (λ k. m < k) channels h in
      record {
        data_set = λ m h.
            let (e, l, fin) = given m (inside m h) in
            ap (λ c. c.blocks) (loaded m (inside m h))
            ∙ ap some (
                rw (fl, sym l)
                  (preprocess_blocks-eq cv scale sz fz (cs m) coeff_blocks 0 fin
                    ∙ ap
                        (λ (k : ℕ).
                          map (block_of cv scale) (halves cv scale coeff_blocks (drop k (cs m))))
                        {y = 0} (omega arith))
                ∙ map-block_of _);
        counted = λ m h. ap (λ c. c.n_blocks) (loaded m (inside m h)) ∙ sym (counted m);
        nonempty = λ m h. omega (arith, counted m);
        fits = λ m h. omega (arith, counted m, n_blocks);
      }
