-- ===== src/Brutefir/Coeff.antt =====
-- The coefficients of a filter: `convolver_coeffs2cbuf` of brutefir/fftw_convolver.cpp,
-- `preprocess_coeff` of brutefir/coeff.cpp, and `free_coeff` and the two `set_coeff` of
-- brutefir/brutefir.cpp.
pub mod Partition
pub mod Store
pub mod Ready
mod Tests
use foo_dsp_bfir.Base.{
  ℕ, zero, suc, ◌+◌, ◌-◌, ◌*◌, Bool, true, false, Option, none, some, List, [], ◌∷◌, ◌++◌, map,
  take, drop, length, replicate, ltb, if◌then◌else◌, update, ℤ, pos, negsuc, min,
}
use foo_dsp_bfir.Brutefir.Real.{Real}
use foo_dsp_bfir.Brutefir.Convolver.{Convolver}
use foo_dsp_bfir.Brutefir.Filter.{Buffer, Coeff, Conf}

module _ {R : Real} (cv : Convolver R) where
  open cv use {Sample}

  -- The loop over the coefficients: NULL is returned at the first product that is not finite.
  unfoldable pub scale_all : R.Double → List Sample → Option (List Sample)
  scale_all s [] = some []
  scale_all s (x ∷ xs) =
      let rest : Option (List Sample) = elim (scale_all s xs) [
        | none ↦ none
        | some ys ↦ some (cv.scaled s x ∷ ys)
      ] in
      if cv.finite (cv.scaled s x) then rest else none

  -- `rcoeffs` before the transform: zeros in the first half, and in the second the coefficients and
  -- zeros up to its end.
  unfoldable pub padded : List Sample → List Sample
  padded half =
      replicate cv.n_fft2 cv.zero_sample
      ++ (half ++ replicate (cv.n_fft2 - length half) cv.zero_sample)

  -- `1.0 / (double)n_fft`
  unfoldable pub fft_scale : R.Double
  fft_scale = R.reciprocal (R.of_int (pos (2 * cv.n_fft2)))

  unfoldable pub coeffs2cbuf : List Sample → ℕ → R.Double → Option (Buffer cv)
  coeffs2cbuf coeffs n_coeffs scale =
      let len = if ltb cv.n_fft2 n_coeffs then cv.n_fft2 else n_coeffs in
      elim (scale_all scale (take len coeffs)) [
        | none ↦ none
        | some half ↦ some (cv.mix_input fft_scale (cv.fft (padded half)))
      ]

  -- Block `n` of `preprocess_coeff`.
  unfoldable pub preprocess_block : List Sample → ℕ → ℕ → R.Double → ℕ → Option (Buffer cv)
  preprocess_block coeffs filter_length coeff_length scale n =
      if ltb coeff_length (n * filter_length)
      then coeffs2cbuf (replicate filter_length cv.zero_sample) filter_length scale
      else if ltb coeff_length ((n + 1) * filter_length)
      then coeffs2cbuf (drop (n * filter_length) coeffs) (coeff_length - n * filter_length) scale
      else coeffs2cbuf (drop (n * filter_length) coeffs) filter_length scale

  -- The loop over the blocks, `left` of them to go from `n` on.
  unfoldable pub preprocess_blocks :
      List Sample → ℕ → ℕ → R.Double → ℕ → ℕ → List (Option (Buffer cv))
  preprocess_blocks coeffs filter_length coeff_length scale zero n = []
  preprocess_blocks coeffs filter_length coeff_length scale (suc left) n =
      preprocess_block coeffs filter_length coeff_length scale n
      ∷ preprocess_blocks coeffs filter_length coeff_length scale left (n + 1)

  -- `none` is NULL, for the coefficients and for the result.
  unfoldable pub preprocess_coeff :
      Option (List Sample) → ℕ → ℕ → ℕ → R.Double → Option (List (Option (Buffer cv)))
  preprocess_coeff none filter_length coeff_blocks coeff_length scale = none
  preprocess_coeff (some coeffs) filter_length coeff_blocks coeff_length scale =
      some (preprocess_blocks coeffs filter_length coeff_length scale coeff_blocks 0)

  -- The coefficients of the class `brutefir`: a part of `bfconf`, and `m_initialized`.
  pub record Coeffs : Type 0 where
    pub conf : Conf cv
    pub filter_length : ℕ
    pub initialized : Bool

  -- the loop of `free_coeff`
  unfoldable pub free_channels : ℕ → ℕ → (ℕ → Coeff cv) → ℕ → Coeff cv
  free_channels zero n cs = cs
  free_channels (suc left) n cs =
      free_channels left (n + 1) (update cs n (record (cs n) { blocks = none }))

  unfoldable pub free_coeff : Coeffs → Coeffs
  free_coeff s = record s {
    conf = record (s.conf) { coeffs = free_channels s.conf.n_channels 0 s.conf.coeffs };
    initialized = false;
  }

  -- The loop of `set_coeff`, `left` channels to go from `n` on. `true` tells that it reached its end.
  unfoldable pub set_channels :
      (ℕ → Option (List Sample)) → ℕ → ℕ → R.Double → ℕ → ℕ → Coeffs → Coeffs × Bool
  set_channels coeffs len coeff_blocks scale zero n s = (s, true)
  set_channels coeffs len coeff_blocks scale (suc left) n s =
      elim (preprocess_coeff (coeffs n) s.filter_length coeff_blocks len scale) [
        | none ↦ (s, false)
        | some bs ↦ set_channels coeffs len coeff_blocks scale left (n + 1) (record s {
          conf = record (s.conf) {
            coeffs = update s.conf.coeffs n (record { n_blocks = coeff_blocks; blocks = some bs });
          };
        })
      ]

  -- From `free_coeff()` to the end of either `set_coeff`. `code` is the value of success.
  unfoldable pub set_all :
      (ℕ → Option (List Sample)) → ℕ → ℕ → R.Double → ℕ → (ℕ → ℤ) → Coeffs → Coeffs × ℤ
  set_all coeffs len coeff_blocks scale n_coeffs code s0 =
      let s = free_coeff s0 in
      let count = if ltb s.conf.n_channels n_coeffs then s.conf.n_channels else n_coeffs in
      let (s', complete) = set_channels coeffs len coeff_blocks scale count 0 s in
      if complete then (record s' { initialized = true }, code count) else (free_coeff s', negsuc 1)

  -- `set_coeff` of the given buffers.
  unfoldable pub set_coeff : (ℕ → Option (List Sample)) → ℕ → ℕ → ℕ → R.Double → Coeffs → Coeffs × ℤ
  unfolding set_all
  set_coeff coeffs n_coeffs len coeff_blocks scale s =
      set_all coeffs len coeff_blocks scale n_coeffs (λ count. pos 0) s

  -- What `load_snd_coeff` gives for a sound file.
  pub record Loaded : Type 0 where
    pub coeffs : ℕ → Option (List Sample)
    pub len : ℕ
    pub n_coeffs : ℕ

  -- `set_coeff` of a sound file: `compatible` is the answer of `check_snd_file`, and `file` is what
  -- `load_snd_coeff` loads for a maximal length, `none` for NULL.
  unfoldable pub set_coeff_file : Bool → (ℕ → Option Loaded) → ℕ → R.Double → Coeffs → Coeffs × ℤ
  unfolding set_all
  set_coeff_file compatible file coeff_blocks scale s =
      if compatible
      then elim (file (coeff_blocks * s.filter_length)) [
        | none ↦ (s, negsuc 1)
        | some l ↦ set_all l.coeffs l.len coeff_blocks scale l.n_coeffs (λ count. pos count) s
      ]
      else (s, negsuc 0)
