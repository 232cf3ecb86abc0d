-- ===== src/Brutefir/Spectrum/Product.antt =====
-- The loops over the spectra in brutefir/fftw_convolver.cpp, entry by entry.
use foo_dsp_bfir.Base.{
  ℕ, zero, suc, ◌+◌, ◌-◌, ◌*◌, ◌/◌, ◌%◌, ◌<◌, ◌≤◌, ◌≡◌, refl, sym, ap, subst, ◌∙◌, arith, update,
  dec_lt, ℕ_discrete, ◌⊎◌, inl, inr,
}
use foo_dsp_bfir.Brutefir.Spectrum.{
  Float, rounds, real_part, imaginary_part, convolve_round, convolve_rounds, convolvef,
  inplace_round, inplace_rounds, convolve_inplacef,
}

module _ (F : Float) where
  open F use {Value, add, sub, mul}

  -- The two entries of a complex number, at the index `m` and four further on, are those of the
  -- product.
  abbrev pub IsProduct : (ℕ → Value) → (ℕ → Value) → (ℕ → Value) → ℕ → Type 0
  IsProduct b c d m =
      (d m ≡ real_part F (b m) (b (m + 4)) (c m) (c (m + 4)))
      × (d (m + 4) ≡ imaginary_part F (b m) (b (m + 4)) (c m) (c (m + 4)))

  round-inside :
      (b c d : ℕ → Value) (n j : ℕ) → j < 4 → IsProduct b c (convolve_round F b c n d) (n + j)
  unfolding convolve_round
  round-inside b c d n zero h = (ground arith, ground arith)
  round-inside b c d n (suc zero) h = (ground arith, ground arith)
  round-inside b c d n (suc (suc zero)) h = (ground arith, ground arith)
  round-inside b c d n (suc (suc (suc zero))) h = (ground arith, ground arith)
  round-inside b c d n (suc (suc (suc (suc k)))) h = absurd (omega arith)

  round-outside :
      (b c d : ℕ → Value) (n m : ℕ) → (m < n) ⊎ (n + 8 ≤ m) → convolve_round F b c n d m ≡ d m
  unfolding convolve_round
  round-outside b c d n m h = ground arith

  inplace-inside :
      (b c : ℕ → Value) (n j : ℕ) → j < 4 → IsProduct b c (inplace_round F c n b) (n + j)
  unfolding inplace_round
  inplace-inside b c n zero h = (ground arith, ground arith)
  inplace-inside b c n (suc zero) h = (ground arith, ground arith)
  inplace-inside b c n (suc (suc zero)) h = (ground arith, ground arith)
  inplace-inside b c n (suc (suc (suc zero))) h = (ground arith, ground arith)
  inplace-inside b c n (suc (suc (suc (suc k)))) h = absurd (omega arith)

  inplace-outside :
      (b c : ℕ → Value) (n m : ℕ) → (m < n) ⊎ (n + 8 ≤ m) → inplace_round F c n b m ≡ b m
  unfolding inplace_round
  inplace-outside b c n m h = ground arith

  rounds-before :
      (b c d : ℕ → Value) (left n m : ℕ) → m < n → convolve_rounds F b c left n d m ≡ d m
  unfolding convolve_rounds
  rounds-before b c d zero n m h = refl
  rounds-before b c d (suc left) n m h =
      rounds-before b c (convolve_round F b c n d) left (n + 8) m (omega arith)
      ∙ round-outside b c d n m (inl h)

  inplace_rounds-before :
      (b c : ℕ → Value) (left n m : ℕ) → m < n → inplace_rounds F c left n b m ≡ b m
  unfolding inplace_rounds
  inplace_rounds-before b c zero n m h = refl
  inplace_rounds-before b c (suc left) n m h =
      inplace_rounds-before (inplace_round F c n b) c left (n + 8) m (omega arith)
      ∙ inplace-outside b c n m (inl h)

  -- Buffers with the same entries at both places.
  pub IsProduct-same :
      (b b' c d d' : ℕ → Value) (m : ℕ)
      → b' m ≡ b m
      → b' (m + 4) ≡ b (m + 4)
      → d' m ≡ d m
      → d' (m + 4) ≡ d (m + 4)
      → IsProduct b' c d m
      → IsProduct b c d' m
  IsProduct-same b b' c d d' m e f g h (r, i) = (g ∙ r ∙ rw (e, f) refl, h ∙ i ∙ rw (e, f) refl)

  rounds-inside :
      (b c d : ℕ → Value) (left n g j : ℕ)
      → g < left
      → j < 4
      → IsProduct b c (convolve_rounds F b c left n d) (n + 8 * g + j)
  unfolding convolve_rounds
  rounds-inside b c d zero n g j below h = absurd (omega arith)
  rounds-inside b c d (suc left) n zero j below h =
      let d' = convolve_round F b c n d in
      IsProduct-same b b c d' (convolve_rounds F b c left (n + 8) d') (n + 8 * 0 + j) refl refl
        (rounds-before b c d' left (n + 8) (n + 8 * 0 + j) (omega arith))
        (rounds-before b c d' left (n + 8) (n + 8 * 0 + j + 4) (omega arith))
        (subst (λ m. IsProduct b c d' m) {x = n + j} (omega arith) (round-inside b c d n j h))
  rounds-inside b c d (suc left) n (suc g) j below h =
      let d' = convolve_round F b c n d in
      subst (λ m. IsProduct b c (convolve_rounds F b c left (n + 8) d') m) {x = n + 8 + 8 * g + j}
        (omega arith) (rounds-inside b c d' left (n + 8) g j (omega arith) h)

  inplace_rounds-inside :
      (b c : ℕ → Value) (left n g j : ℕ)
      → g < left
      → j < 4
      → IsProduct b c (inplace_rounds F c left n b) (n + 8 * g + j)
  unfolding inplace_rounds
  inplace_rounds-inside b c zero n g j below h = absurd (omega arith)
  inplace_rounds-inside b c (suc left) n zero j below h =
      let d' = inplace_round F c n b in
      IsProduct-same b b c d' (inplace_rounds F c left (n + 8) d') (n + 8 * 0 + j) refl refl
        (inplace_rounds-before d' c left (n + 8) (n + 8 * 0 + j) (omega arith))
        (inplace_rounds-before d' c left (n + 8) (n + 8 * 0 + j + 4) (omega arith))
        (subst (λ m. IsProduct b c d' m) {x = n + j} (omega arith) (inplace-inside b c n j h))
  inplace_rounds-inside b c (suc left) n (suc g) j below h =
      let d' = inplace_round F c n b in
      let r = inplace_rounds F c left (n + 8) d' in
      subst (λ m. IsProduct b c r m) {x = n + 8 + 8 * g + j} (omega arith)
        (IsProduct-same b d' c r r (n + 8 + 8 * g + j)
          (inplace-outside b c n (n + 8 + 8 * g + j) (inr (omega arith)))
          (inplace-outside b c n (n + 8 + 8 * g + j + 4) (inr (omega arith))) refl refl
          (inplace_rounds-inside d' c left (n + 8) g j (omega arith) h))

  pub rounds-above : (n_fft g : ℕ) → 8 * g < n_fft → g < rounds n_fft
  unfolding rounds
  rounds-above n_fft g h = omega arith

  -- What a product of spectra is: two real products at 0 and 4, and complex ones elsewhere.
  abbrev pub IsSpectrumProduct : ℕ → (ℕ → Value) → (ℕ → Value) → (ℕ → Value) → Type 0
  IsSpectrumProduct n_fft b c d =
      (d 0 ≡ mul (b 0) (c 0))
      × (d 4 ≡ mul (b 4) (c 4))
      × ((g j : ℕ) → 8 * g < n_fft → j < 4 → 0 < 8 * g + j → IsProduct b c d (8 * g + j))

  unique :
      (n_fft : ℕ) (b c d d' : ℕ → Value)
      → IsSpectrumProduct n_fft b c d
      → IsSpectrumProduct n_fft b c d'
      → (i : ℕ) → i < n_fft
      → d i ≡ d' i
  unique n_fft b c d d' (x0, x4, x) (y0, y4, y) i h =
      let g = i / 8 in
      let j = i % 8 in
      let parts : 8 * g + j ≡ i = omega arith in
      elim (dec_lt j 4) [
        | yes real ↦ elim (ℕ_discrete i 0) [
          | yes at ↦ ap d at ∙ x0 ∙ sym y0 ∙ ap d' (sym at)
          | no ne ↦
              ap d (sym parts)
              ∙ (x g j (omega arith) real (omega arith)).0
              ∙ sym (y g j (omega arith) real (omega arith)).0
              ∙ ap d' parts
        ]
        | no imaginary ↦ elim (ℕ_discrete i 4) [
          | yes at ↦ ap d at ∙ x4 ∙ sym y4 ∙ ap d' (sym at)
          | no ne ↦
              let k = j - 4 in
              let parts' : 8 * g + k + 4 ≡ i = omega arith in
              ap d (sym parts')
              ∙ (x g k (omega arith) (omega arith) (omega arith)).1
              ∙ sym (y g k (omega arith) (omega arith) (omega arith)).1
              ∙ ap d' parts'
        ]
      ]

  -- For every length `convolvef` multiplies two spectra, entry by entry, from buffers that it does
  -- not write.
  pub convolvef-IsSpectrumProduct :
      (n_fft : ℕ) (b c d : ℕ → Value) → IsSpectrumProduct n_fft b c (convolvef F n_fft b c d)
  unfolding convolvef update
  convolvef-IsSpectrumProduct n_fft b c d = (
    ground arith,
    ground arith,
    λ g j below h positive.
        let r = convolve_rounds F b c (rounds n_fft) 0 d in
        IsProduct-same b b c r (convolvef F n_fft b c d) (8 * g + j) refl refl (ground arith)
          (ground arith)
          (subst (λ m. IsProduct b c r m) {x = 0 + 8 * g + j} (omega arith)
            (rounds-inside b c d (rounds n_fft) 0 g j (rounds-above n_fft g below) h)),
  )

  -- `convolve_inplacef` multiplies the same way, although it reads from the buffer that it writes.
  pub convolve_inplacef-IsSpectrumProduct :
      (n_fft : ℕ) (b c : ℕ → Value) → IsSpectrumProduct n_fft b c (convolve_inplacef F n_fft b c)
  unfolding convolve_inplacef update
  convolve_inplacef-IsSpectrumProduct n_fft b c = (
    ground arith,
    ground arith,
    λ g j below h positive.
        let r = inplace_rounds F c (rounds n_fft) 0 b in
        IsProduct-same b b c r (convolve_inplacef F n_fft b c) (8 * g + j) refl refl (ground arith)
          (ground arith)
          (subst (λ m. IsProduct b c r m) {x = 0 + 8 * g + j} (omega arith)
            (inplace_rounds-inside b c (rounds n_fft) 0 g j (rounds-above n_fft g below) h)),
  )

  -- The convolution in place and the one into another buffer give the same spectrum.
  convolve_inplacef_lem :
      (n_fft : ℕ) (b c d : ℕ → Value) (i : ℕ)
      → i < n_fft
      → convolve_inplacef F n_fft b c i ≡ convolvef F n_fft b c d i
  convolve_inplacef_lem n_fft b c d i h =
      unique n_fft b c (convolve_inplacef F n_fft b c) (convolvef F n_fft b c d)
        (convolve_inplacef-IsSpectrumProduct n_fft b c) (convolvef-IsSpectrumProduct n_fft b c d) i
        h
