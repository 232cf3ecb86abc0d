-- ===== src/Brutefir/Realsize/Dirac.antt =====
-- brutefir/fftw_convolver.cpp: the convolution with a Dirac impulse, in place and into another buffer,
-- for both sizes.
use foo_dsp_bfir.Base.{
  ℕ, zero, suc, ◌+◌, ◌*◌, ◌%◌, ◌<◌, ◌≡◌, ◌∙◌, ap, arith, ltb, leb, ◌&&◌, ◌==◌, if◌then◌else◌,
  update,
}
use foo_dsp_bfir.Brutefir.Spectrum.{Float}
use foo_dsp_bfir.Brutefir.Realsize.{
  four, eight, Floats, Cbuf, dirac_inplace_round, dirac_inplace_rounds, dirac_round, dirac_rounds,
  dirac_count, dirac_convolve_inplacef, dirac_convolve_inplaced, dirac_convolvef, dirac_convolved,
  convolver_dirac_convolve_inplace, convolver_dirac_convolve,
}

module _ (F : Float) (plus minus : F.Value) where
  -- The spectrum of the impulse, with its scale.
  abbrev pub dirac_at : ℕ → F.Value
  dirac_at k = if k % 2 == 0 then plus else minus

  dirac_inplace_round_lem :
      (g k : ℕ) (b : ℕ → F.Value)
      → dirac_inplace_round F plus minus (4 * g) b k
        ≡ (if leb (4 * g) k && ltb k (4 * g + 4) then F.mul (b k) (dirac_at k) else b k)
  unfolding dirac_inplace_round update
  dirac_inplace_round_lem g k b = ground arith

  dirac_round_lem :
      (g k : ℕ) (b d : ℕ → F.Value)
      → dirac_round F plus minus b (4 * g) d k
        ≡ (if leb (4 * g) k && ltb k (4 * g + 4) then F.mul (b k) (dirac_at k) else d k)
  unfolding dirac_round update
  dirac_round_lem g k b d = ground arith

  dirac_inplace_rounds_lem :
      (left g k : ℕ) (b : ℕ → F.Value)
      → dirac_inplace_rounds F plus minus left (4 * g) b k
        ≡ (if leb (4 * g) k && ltb k (4 * g + 4 * left) then F.mul (b k) (dirac_at k) else b k)
  unfolding dirac_inplace_rounds
  dirac_inplace_rounds_lem zero g k b = ground arith
  dirac_inplace_rounds_lem (suc left) g k b =
      ap
        (λ n.
          dirac_inplace_rounds F plus minus left n (dirac_inplace_round F plus minus (4 * g) b) k)
        {x = 4 * g + 4} {y = 4 * (g + 1)} (omega arith)
      ∙ dirac_inplace_rounds_lem left (g + 1) k (dirac_inplace_round F plus minus (4 * g) b)
      ∙ ground (arith, dirac_inplace_round_lem g k b)

  dirac_rounds_lem :
      (left g k : ℕ) (b d : ℕ → F.Value)
      → dirac_rounds F plus minus b left (4 * g) d k
        ≡ (if leb (4 * g) k && ltb k (4 * g + 4 * left) then F.mul (b k) (dirac_at k) else d k)
  unfolding dirac_rounds
  dirac_rounds_lem zero g k b d = ground arith
  dirac_rounds_lem (suc left) g k b d =
      ap (λ n. dirac_rounds F plus minus b left n (dirac_round F plus minus b (4 * g) d) k)
        {x = 4 * g + 4} {y = 4 * (g + 1)} (omega arith)
      ∙ dirac_rounds_lem left (g + 1) k b (dirac_round F plus minus b (4 * g) d)
      ∙ ground (arith, dirac_round_lem g k b d)

  inplace_entry :
      (m k : ℕ) (b : ℕ → F.Value)
      → k < 4 * m
      → dirac_inplace_rounds F plus minus (dirac_count (4 * m)) 0 b k ≡ F.mul (b k) (dirac_at k)
  inplace_entry m k b h = ground (arith, dirac_inplace_rounds_lem (dirac_count (4 * m)) 0 k b)

  other_entry :
      (m k : ℕ) (b d : ℕ → F.Value)
      → k < 4 * m
      → dirac_rounds F plus minus b (dirac_count (4 * m)) 0 d k ≡ F.mul (b k) (dirac_at k)
  other_entry m k b d h = ground (arith, dirac_rounds_lem (dirac_count (4 * m)) 0 k b d)

-- The convolution with a Dirac impulse, in place and into another buffer, for `float` and for
-- `double` and a length that is a multiple of 4: all give the same, each entry times the scale, which
-- is negated at the odd entries.
pub convolver_dirac_convolve_lem :
    (S : Floats) (m k : ℕ) (b4 d4 : Cbuf S four) (b8 d8 : Cbuf S eight)
    → k < 4 * m
    → (let plus4 = S.inverse_single (4 * m) in
        let at4 = S.single.mul (b4 k) (dirac_at S.single plus4 (S.neg_single plus4) k) in
        let plus8 = S.inverse_double (4 * m) in
        let at8 = S.double.mul (b8 k) (dirac_at S.double plus8 (S.neg_double plus8) k) in
        (convolver_dirac_convolve_inplace S four (4 * m) b4 k ≡ at4)
        × (convolver_dirac_convolve S four (4 * m) b4 d4 k ≡ at4)
        × (convolver_dirac_convolve_inplace S eight (4 * m) b8 k ≡ at8)
        × (convolver_dirac_convolve S eight (4 * m) b8 d8 k ≡ at8))
unfolding convolver_dirac_convolve_inplace convolver_dirac_convolve dirac_convolve_inplacef
    dirac_convolve_inplaced dirac_convolvef dirac_convolved
convolver_dirac_convolve_lem S m k b4 d4 b8 d8 h = (
  inplace_entry S.single _ _ m k b4 h,
  other_entry S.single _ _ m k b4 d4 h,
  inplace_entry S.double _ _ m k b8 h,
  other_entry S.double _ _ m k b8 d8 h,
)
