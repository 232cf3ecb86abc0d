-- ===== src/Brutefir/Spectrum/Sum.antt =====
-- `convolve_addf` of brutefir/fftw_convolver.cpp, entry by entry.
use foo_dsp_bfir.Base.{
  ℕ, zero, suc, ◌+◌, ◌*◌, ◌<◌, ◌≤◌, ◌≡◌, refl, subst, ◌∙◌, arith, ◌⊎◌, inl, inr, update,
}
use foo_dsp_bfir.Brutefir.Spectrum.{
  Float, rounds, real_part, imaginary_part, add_round, add_rounds, convolve_addf,
}
use foo_dsp_bfir.Brutefir.Spectrum.Product.{rounds-above}

module _ (F : Float) where
  open F use {Value, add, sub, mul}

  -- The two entries of a complex number, at the index `m` and four further on, are increased by those
  -- of the product.
  abbrev pub IsIncreased : (ℕ → Value) → (ℕ → Value) → (ℕ → Value) → (ℕ → Value) → ℕ → Type 0
  IsIncreased b c d d' m =
      (d' m ≡ add (d m) (real_part F (b m) (b (m + 4)) (c m) (c (m + 4))))
      × (d' (m + 4) ≡ add (d (m + 4)) (imaginary_part F (b m) (b (m + 4)) (c m) (c (m + 4))))

  add-inside :
      (b c d : ℕ → Value) (n j : ℕ) → j < 4 → IsIncreased b c d (add_round F b c n d) (n + j)
  unfolding add_round
  add-inside b c d n zero h = (ground arith, ground arith)
  add-inside b c d n (suc zero) h = (ground arith, ground arith)
  add-inside b c d n (suc (suc zero)) h = (ground arith, ground arith)
  add-inside b c d n (suc (suc (suc zero))) h = (ground arith, ground arith)
  add-inside b c d n (suc (suc (suc (suc k)))) h = absurd (omega arith)

  add-outside : (b c d : ℕ → Value) (n m : ℕ) → (m < n) ⊎ (n + 8 ≤ m) → add_round F b c n d m ≡ d m
  unfolding add_round
  add-outside b c d n m h = ground arith

  add_rounds-before : (b c d : ℕ → Value) (left n m : ℕ) → m < n → add_rounds F b c left n d m ≡ d m
  unfolding add_rounds
  add_rounds-before b c d zero n m h = refl
  add_rounds-before b c d (suc left) n m h =
      add_rounds-before b c (add_round F b c n d) left (n + 8) m (omega arith)
      ∙ add-outside b c d n m (inl h)

  -- Buffers with the same entries at both places.
  IsIncreased-same :
      (b c d e d' e' : ℕ → Value) (m : ℕ)
      → e m ≡ d m
      → e (m + 4) ≡ d (m + 4)
      → e' m ≡ d' m
      → e' (m + 4) ≡ d' (m + 4)
      → IsIncreased b c e d' m
      → IsIncreased b c d e' m
  IsIncreased-same b c d e d' e' m f g h k (r, i) = (h ∙ r ∙ rw f refl, k ∙ i ∙ rw g refl)

  add_rounds-inside :
      (b c d : ℕ → Value) (left n g j : ℕ)
      → g < left
      → j < 4
      → IsIncreased b c d (add_rounds F b c left n d) (n + 8 * g + j)
  unfolding add_rounds
  add_rounds-inside b c d zero n g j below h = absurd (omega arith)
  add_rounds-inside b c d (suc left) n zero j below h =
      let d' = add_round F b c n d in
      IsIncreased-same b c d d d' (add_rounds F b c left (n + 8) d') (n + 8 * 0 + j) refl refl
        (add_rounds-before b c d' left (n + 8) (n + 8 * 0 + j) (omega arith))
        (add_rounds-before b c d' left (n + 8) (n + 8 * 0 + j + 4) (omega arith))
        (subst (λ m. IsIncreased b c d d' m) {x = n + j} (omega arith) (add-inside b c d n j h))
  add_rounds-inside b c d (suc left) n (suc g) j below h =
      let d' = add_round F b c n d in
      let r = add_rounds F b c left (n + 8) d' in
      subst (λ m. IsIncreased b c d r m) {x = n + 8 + 8 * g + j} (omega arith)
        (IsIncreased-same b c d d' r r (n + 8 + 8 * g + j)
          (add-outside b c d n (n + 8 + 8 * g + j) (inr (omega arith)))
          (add-outside b c d n (n + 8 + 8 * g + j + 4) (inr (omega arith))) refl refl
          (add_rounds-inside b c d' left (n + 8) g j (omega arith) h))

  -- For every length `convolve_addf` adds the product of two spectra to a third one, entry by entry:
  -- two real products at 0 and 4, and complex ones elsewhere.
  pub convolve_addf_lem :
      (n_fft : ℕ) (b c d : ℕ → Value)
      → let d' = convolve_addf F n_fft b c d in
        (d' 0 ≡ add (d 0) (mul (b 0) (c 0)))
        × (d' 4 ≡ add (d 4) (mul (b 4) (c 4)))
        × ((g j : ℕ) → 8 * g < n_fft → j < 4 → 0 < 8 * g + j → IsIncreased b c d d' (8 * g + j))
  unfolding convolve_addf update
  convolve_addf_lem n_fft b c d = (
    ground arith,
    ground arith,
    λ g j below h positive.
        let r = add_rounds F b c (rounds n_fft) 0 d in
        IsIncreased-same b c d d r (convolve_addf F n_fft b c d) (8 * g + j) refl refl
          (ground arith) (ground arith)
          (subst (λ m. IsIncreased b c d r m) {x = 0 + 8 * g + j} (omega arith)
            (add_rounds-inside b c d (rounds n_fft) 0 g j (rounds-above F n_fft g below) h)),
  )
