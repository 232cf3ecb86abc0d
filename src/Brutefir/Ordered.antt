-- ===== src/Brutefir/Ordered.antt =====
-- brutefir/fftw_convolver.cpp: `convolve_inplace_ordered`, the product of two half-complex buffers in
-- the order of FFTW, as one function of the "float" type.
pub mod Product
pub mod Chain
mod Tests
use foo_dsp_bfir.Base.{ℕ, zero, suc, ◌+◌, ◌-◌, ◌/◌, update}
use foo_dsp_bfir.Brutefir.Spectrum.{Float}

module _ (F : Float) where
  open F use {Value, add, sub, mul}

  -- A round of the loop: `a` is kept, the rest is read from the buffer that is written.
  unfoldable pub ordered_round : ℕ → (ℕ → Value) → ℕ → (ℕ → Value) → ℕ → Value
  unfolding update
  ordered_round size c n b =
      let a = b n in
      let b1 = update b n (sub (mul a (c n)) (mul (b (size - n)) (c (size - n)))) in
      update b1 (size - n) (add (mul a (c (size - n))) (mul (b1 (size - n)) (c n)))

  -- The loop, with `left` rounds from `n` on.
  unfoldable pub ordered_rounds : ℕ → (ℕ → Value) → ℕ → ℕ → (ℕ → Value) → ℕ → Value
  ordered_rounds size c zero n b = b
  ordered_rounds size c (suc left) n b =
      ordered_rounds size c left (n + 1) (ordered_round size c n b)

  unfoldable pub convolve_inplace_ordered : (ℕ → Value) → (ℕ → Value) → ℕ → ℕ → Value
  unfolding update ordered_rounds
  convolve_inplace_ordered b c size =
      let size2 = size / 2 in
      let first = update b 0 (mul (b 0) (c 0)) in
      let rest = ordered_rounds size c (size2 - 1) 1 first in
      update rest size2 (mul (rest size2) (c size2))
