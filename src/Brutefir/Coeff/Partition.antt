-- ===== src/Brutefir/Coeff/Partition.antt =====
-- `preprocess_coeff` of brutefir/coeff.cpp cuts the coefficients into blocks that cover them.
use mathlib.Core.List.{flatten, map-append}
use foo_dsp_bfir.Base.{
  ℕ, zero, suc, ◌+◌, ◌-◌, ◌*◌, ◌≤◌, ◌≡◌, refl, arith, true, false, Option, some, List, [], ◌∷◌,
  ◌++◌, map, take, drop, length, replicate, length-replicate, length-append, length-take,
  length-drop, drop-drop, take_all, drop_all, replicate-append, take-append-drop, ap, ap₂, ◌∙◌, sym,
  dec_le, append_assoc, append-nil, ltb, lt→ltb, le→ltb, dec_lt,
}
use foo_dsp_bfir.Brutefir.Real.{Real}
use foo_dsp_bfir.Brutefir.Convolver.{Convolver}
use foo_dsp_bfir.Brutefir.Filter.{Buffer}
use foo_dsp_bfir.Brutefir.Coeff.{
  scale_all, padded, fft_scale, coeffs2cbuf, preprocess_block, preprocess_blocks, preprocess_coeff,
}

module _ {R : Real} (cv : Convolver R) (scale : R.Double) where
  open cv use {Sample, n_fft2, zero_sample, scaled, finite}

  abbrev pub AllFinite : List Sample → Type 0
  AllFinite [] = Unit
  AllFinite (x ∷ xs) = (finite (scaled scale x) ≡ true) × AllFinite xs

  -- A half buffer of products, filled up with zeros.
  abbrev pub filled : List Sample → List Sample
  filled half = half ++ replicate (n_fft2 - length half) zero_sample

  abbrev pub halves : ℕ → List Sample → List (List Sample)
  halves zero rest = []
  halves (suc left) rest =
      filled (map (scaled scale) (take n_fft2 rest)) ∷ halves left (drop n_fft2 rest)

  -- The coefficient block of a half buffer.
  abbrev pub transformed : List Sample → Buffer cv
  transformed half = cv.mix_input (fft_scale cv) (cv.fft (replicate n_fft2 zero_sample ++ half))

  abbrev pub block_of : List Sample → Option (Buffer cv)
  block_of half = some (transformed half)

  scale_all-eq :
      (xs : List Sample) → AllFinite xs → scale_all cv scale xs ≡ some (map (scaled scale) xs)
  unfolding scale_all
  scale_all-eq [] h = refl
  scale_all-eq (x ∷ xs) h = rw (h.0, scale_all-eq xs h.1)

  AllFinite-take : (n : ℕ) (xs : List Sample) → AllFinite xs → AllFinite (take n xs)
  AllFinite-take zero xs h = tt
  AllFinite-take (suc n) [] h = tt
  AllFinite-take (suc n) (x ∷ xs) h = (h.0, AllFinite-take n xs h.1)

  AllFinite-drop : (n : ℕ) (xs : List Sample) → AllFinite xs → AllFinite (drop n xs)
  AllFinite-drop zero xs h = h
  AllFinite-drop (suc n) [] h = tt
  AllFinite-drop (suc n) (x ∷ xs) h = AllFinite-drop n xs h.1

  -- A conversion of `k` coefficients that fit half a buffer.
  coeffs2cbuf-eq :
      (xs : List Sample) (k : ℕ)
      → AllFinite xs
      → k ≤ n_fft2
      → coeffs2cbuf cv xs k scale ≡ block_of (filled (map (scaled scale) (take k xs)))
  unfolding coeffs2cbuf padded
  coeffs2cbuf-eq xs k fin fits =
      rw (le→ltb n_fft2 k fits, coeffs2cbuf, scale_all-eq (take k xs) (AllFinite-take k xs fin))

  module _ (scaled_zero : scaled scale zero_sample ≡ zero_sample)
      (finite_zero : finite zero_sample ≡ true) where
    AllFinite-zeros : (n : ℕ) → AllFinite (replicate n zero_sample)
    AllFinite-zeros zero = tt
    AllFinite-zeros (suc n) = (rw scaled_zero finite_zero, AllFinite-zeros n)

    map-zeros : (n : ℕ) → map (scaled scale) (replicate n zero_sample) ≡ replicate n zero_sample
    map-zeros zero = refl
    map-zeros (suc n) = rw (scaled_zero, map-zeros n)

    filled-zeros :
        filled (map (scaled scale) (take n_fft2 (replicate n_fft2 zero_sample)))
        ≡ filled (map (scaled scale) (take n_fft2 []))
    filled-zeros =
        ap (λ (xs : List Sample). filled (map (scaled scale) xs))
          (take_all n_fft2 (replicate n_fft2 zero_sample)
            (omega (arith, length-replicate n_fft2 zero_sample)))
        ∙ ap filled (map-zeros n_fft2)
        ∙ rw
            (
              length-replicate,
              replicate-append n_fft2 (n_fft2 - n_fft2) zero_sample,
              take_all {A = Sample} n_fft2 [] (omega arith),
            )
            (ap (λ (k : ℕ). replicate k zero_sample) (omega arith))

    -- Block `n` is made of the coefficients that follow the first `n` blocks.
    preprocess_block-eq :
        (cs : List Sample) (n : ℕ)
        → AllFinite cs
        → preprocess_block cv cs n_fft2 (length cs) scale n
          ≡ block_of (filled (map (scaled scale) (take n_fft2 (drop (n * n_fft2) cs))))
    unfolding preprocess_block
    preprocess_block-eq cs n fin = elim (dec_lt (length cs) (n * n_fft2)) [
      | yes past ↦
          rw (lt→ltb _ _ past, drop_all (n * n_fft2) cs (omega arith))
            (coeffs2cbuf-eq (replicate n_fft2 zero_sample) n_fft2 (AllFinite-zeros n_fft2)
                (omega arith)
              ∙ ap block_of filled-zeros)
      | no ahead ↦
          let first : ltb (length cs) (n * n_fft2) ≡ false = le→ltb _ _ (omega arith) in
          let left = length-drop (n * n_fft2) cs in
          elim (dec_lt (length cs) ((n + 1) * n_fft2)) [
            | yes part ↦
                rw (first, lt→ltb _ _ part)
                  (coeffs2cbuf-eq (drop (n * n_fft2) cs) (length cs - n * n_fft2)
                      (AllFinite-drop _ cs fin) (omega arith)
                    ∙ ap (λ (xs : List Sample). block_of (filled (map (scaled scale) xs)))
                        (take_all _ _ (omega (arith, left))
                          ∙ sym (take_all _ _ (omega (arith, left)))))
            | no full ↦
                rw (first, le→ltb (length cs) ((n + 1) * n_fft2) (omega arith))
                  (coeffs2cbuf-eq (drop (n * n_fft2) cs) n_fft2 (AllFinite-drop _ cs fin)
                    (omega arith))
          ]
    ]

    pub preprocess_blocks-eq :
        (cs : List Sample) (left n : ℕ)
        → AllFinite cs
        → preprocess_blocks cv cs n_fft2 (length cs) scale left n
          ≡ map block_of (halves left (drop (n * n_fft2) cs))
    unfolding preprocess_blocks
    preprocess_blocks-eq cs zero n fin = refl
    preprocess_blocks-eq cs (suc left) n fin = ap₂ ◌∷◌ (preprocess_block-eq cs n fin) (
        preprocess_blocks-eq cs left (n + 1) fin
        ∙ ap (λ (xs : List Sample). map block_of (halves left xs))
            (ap (λ (k : ℕ). drop k cs) (omega arith) ∙ sym (drop-drop n_fft2 (n * n_fft2) cs)))

  length-map : (xs : List Sample) → length (map (scaled scale) xs) ≡ length xs
  length-map [] = refl
  length-map (x ∷ xs) = ap suc (length-map xs)

  zeros : ℕ → List Sample
  zeros k = replicate k zero_sample

  -- The halves together are the products, filled up with zeros.
  flatten-halves :
      (left : ℕ) (rest : List Sample)
      → length rest ≤ left * n_fft2
      → flatten (halves left rest) ≡ map (scaled scale) rest ++ zeros (left * n_fft2 - length rest)
  unfolding flatten zeros
  flatten-halves zero [] h = ap zeros {x = 0} (omega arith)
  flatten-halves zero (x ∷ rest) h = absurd (omega arith)
  flatten-halves (suc left) rest h = elim (dec_le (length rest) n_fft2) [
    | yes short ↦
        rw
          (
            take_all n_fft2 rest short,
            drop_all n_fft2 rest short,
            flatten-halves left [] (omega arith),
            length-map,
            append_assoc,
            replicate-append,
          )
          (ap (λ (k : ℕ). map (scaled scale) rest ++ zeros k) (omega arith))
    | no long ↦
        let taken : n_fft2 - length (map (scaled scale) (take n_fft2 rest)) ≡ 0 =
          omega (arith, length-map (take n_fft2 rest), length-take n_fft2 rest) in
        let dropped = length-drop n_fft2 rest in
        rw
          (
            taken,
            append-nil,
            flatten-halves left (drop n_fft2 rest) (omega (arith, dropped)),
            ← append_assoc,
            ← map-append,
            take-append-drop,
          )
          (ap (λ (k : ℕ). map (scaled scale) rest ++ zeros k) (omega (arith, dropped)))
  ]

  -- Every list is half a buffer long.
  abbrev pub AllHalf : List (List Sample) → Type 0
  AllHalf [] = Unit
  AllHalf (half ∷ rest) = (length half ≡ n_fft2) × AllHalf rest

  halves-AllHalf : (left : ℕ) (rest : List Sample) → AllHalf (halves left rest)
  halves-AllHalf zero rest = tt
  halves-AllHalf (suc left) rest =
      let products = map (scaled scale) (take n_fft2 rest) in
      (
        length-append products _
            ∙ rw length-replicate
                (omega (arith, length-map (take n_fft2 rest), length-take n_fft2 rest)),
        halves-AllHalf left (drop n_fft2 rest),
      )

  pub length-halves : (left : ℕ) (rest : List Sample) → length (halves left rest) ≡ left
  length-halves zero rest = refl
  length-halves (suc left) rest = ap suc (length-halves left (drop n_fft2 rest))

  -- Where zero stays zero under the scale, and all products are finite: coefficients that fit the
  -- blocks are cut, in order and with none left out, into the second halves of as many full buffers
  -- as blocks are asked for; behind the scaled coefficients these hold zeros. Each block is the
  -- transform of its half behind a half of zeros, and none is NULL.
  pub preprocess_coeff-partition :
      (cs : List Sample) (blocks : ℕ)
      → scaled scale zero_sample ≡ zero_sample
      → finite zero_sample ≡ true
      → AllFinite cs
      → length cs ≤ blocks * n_fft2
      → (hs : List (List Sample)) × (preprocess_coeff cv (some cs) n_fft2 blocks (length cs) scale
          ≡ some (map block_of hs))
        × (length hs ≡ blocks)
        × AllHalf hs
        × (flatten hs
            ≡ map (scaled scale) cs ++ replicate (blocks * n_fft2 - length cs) zero_sample)
  unfolding preprocess_coeff zeros
  preprocess_coeff-partition cs blocks sz fz fin fits = (
    halves blocks cs,
    ap some (
        preprocess_blocks-eq sz fz cs blocks 0 fin
        ∙ ap (λ (k : ℕ). map block_of (halves blocks (drop k cs))) {y = 0} (omega arith)),
    length-halves blocks cs,
    halves-AllHalf blocks cs,
    flatten-halves blocks cs fits,
  )
