-- ===== src/Brutefir/Ordered/Product.antt =====
-- brutefir/fftw_convolver.cpp: what `convolve_inplace_ordered` leaves in each entry, in terms of the
-- buffer before it was written.
use foo_dsp_bfir.Base.{
  ℕ, zero, suc, ◌+◌, ◌-◌, ◌*◌, ◌/◌, ◌≤◌, ◌<◌, ◌≡◌, arith, ltb, leb, ◌==◌, ◌&&◌, if◌then◌else◌,
  update,
}
use foo_dsp_bfir.Brutefir.Spectrum.{Float}
use foo_dsp_bfir.Brutefir.Ordered.{ordered_round, ordered_rounds, convolve_inplace_ordered}

module _ (F : Float) where
  open F use {Value, add, sub, mul}

  -- The product of the numbers whose real parts stand at `n` and whose imaginary parts at `size - n`.
  abbrev pub real_at : ℕ → (ℕ → Value) → (ℕ → Value) → ℕ → Value
  real_at size b c n = sub (mul (b n) (c n)) (mul (b (size - n)) (c (size - n)))

  abbrev pub imaginary_at : ℕ → (ℕ → Value) → (ℕ → Value) → ℕ → Value
  imaginary_at size b c n = add (mul (b n) (c (size - n))) (mul (b (size - n)) (c n))

  abbrev pub product_at : ℕ → (ℕ → Value) → (ℕ → Value) → ℕ → Value
  product_at size b c k =
      if (k == 0)
      then mul (b 0) (c 0)
      else if k == size / 2
      then mul (b (size / 2)) (c (size / 2))
      else if ltb k (size / 2)
      then real_at size b c k
      else imaginary_at size b c (size - k)

  ordered_round_lem :
      (h n j : ℕ) (b c : ℕ → Value)
      → 1 ≤ n
      → n < h
      → ordered_round F (2 * h) c n b j ≡ (
          if j == n
          then real_at (2 * h) b c n
          else if j == 2 * h - n
          then imaginary_at (2 * h) b c n
          else b j)
  unfolding ordered_round update
  ordered_round_lem h n j b c one lt = ground arith

  ordered_rounds_lem :
      (h left n k : ℕ) (b c : ℕ → Value)
      → 1 ≤ n
      → n + left ≤ h
      → k < 2 * h
      → ordered_rounds F (2 * h) c left n b k ≡ (
          if leb n k && ltb k (n + left)
          then real_at (2 * h) b c k
          else if leb n (2 * h - k) && ltb (2 * h - k) (n + left)
          then imaginary_at (2 * h) b c (2 * h - k)
          else b k)
  unfolding ordered_rounds
  ordered_rounds_lem h zero n k b c one fits lt = ground arith
  ordered_rounds_lem h (suc left) n k b c one fits lt =
      let b' = ordered_round F (2 * h) c n b in
      ground (
        arith,
        ordered_rounds_lem h left (n + 1) k b' c (omega arith) (omega arith) lt,
        ordered_round_lem h n k b c one (omega arith),
        ordered_round_lem h n (2 * h - k) b c one (omega arith),
        ordered_round_lem h n (2 * h - (2 * h - k)) b c one (omega arith),
      )

  -- Each entry of the product of two half-complex buffers of even length, in terms of the buffers
  -- before the loop writes the first of them.
  pub convolve_inplace_ordered_lem :
      (h k : ℕ) (b c : ℕ → Value)
      → 1 ≤ h
      → k < 2 * h
      → convolve_inplace_ordered F b c (2 * h) k ≡ product_at (2 * h) b c k
  unfolding convolve_inplace_ordered update
  convolve_inplace_ordered_lem h k b c one lt =
      let first = update b 0 (mul (b 0) (c 0)) in
      ground (
        arith,
        ordered_rounds_lem h (h - 1) 1 k first c (omega arith) (omega arith) lt,
        ordered_rounds_lem h (h - 1) 1 h first c (omega arith) (omega arith) (omega arith),
      )
