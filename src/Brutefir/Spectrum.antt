-- ===== src/Brutefir/Spectrum.antt =====
-- The products of spectra in brutefir/fftw_convolver.cpp: `convolvef`, `convolve_inplacef` and
-- `convolve_addf`. A spectrum is stored in groups of eight, four real parts and then four imaginary
-- parts; the first and the fifth entry are two numbers that are real. A buffer is a function of the
-- index. The loops for `double` (`convolved` and so on) are the same.
pub mod Product
pub mod Sum
mod Tests
use foo_dsp_bfir.Base.{ℕ, zero, suc, ◌+◌, ◌-◌, ◌/◌, ◌%◌, ltb, ◌==◌, if◌then◌else◌, update}

-- `float` and the operations on it.
pub record Float : Type 1 where
  pub Value : Type 0
  pub add : Value → Value → Value
  pub sub : Value → Value → Value
  pub mul : Value → Value → Value

-- The rounds of `for (n = 0; n < n_fft; n += 8)`.
unfoldable pub rounds : ℕ → ℕ
rounds n_fft = (n_fft + 7) / 8

module _ (F : Float) where
  open F use {Value, add, sub, mul}

  -- the real and the imaginary part of a product
  abbrev pub real_part : Value → Value → Value → Value → Value
  real_part br bi cr ci = sub (mul br cr) (mul bi ci)

  abbrev pub imaginary_part : Value → Value → Value → Value → Value
  imaginary_part br bi cr ci = add (mul br ci) (mul bi cr)

  -- A round of `convolvef` from the index `n` on.
  unfoldable pub convolve_round : (ℕ → Value) → (ℕ → Value) → ℕ → (ℕ → Value) → ℕ → Value
  unfolding update
  convolve_round b c n d =
      let d0 = update d n (real_part (b n) (b (n + 4)) (c n) (c (n + 4))) in
      let d1 = update d0 (n + 1) (real_part (b (n + 1)) (b (n + 5)) (c (n + 1)) (c (n + 5))) in
      let d2 = update d1 (n + 2) (real_part (b (n + 2)) (b (n + 6)) (c (n + 2)) (c (n + 6))) in
      let d3 = update d2 (n + 3) (real_part (b (n + 3)) (b (n + 7)) (c (n + 3)) (c (n + 7))) in
      let d4 = update d3 (n + 4) (imaginary_part (b n) (b (n + 4)) (c n) (c (n + 4))) in
      let d5 = update d4 (n + 5) (imaginary_part (b (n + 1)) (b (n + 5)) (c (n + 1)) (c (n + 5))) in
      let d6 = update d5 (n + 6) (imaginary_part (b (n + 2)) (b (n + 6)) (c (n + 2)) (c (n + 6))) in
      update d6 (n + 7) (imaginary_part (b (n + 3)) (b (n + 7)) (c (n + 3)) (c (n + 7)))

  unfoldable pub convolve_rounds : (ℕ → Value) → (ℕ → Value) → ℕ → ℕ → (ℕ → Value) → ℕ → Value
  convolve_rounds b c zero n d = d
  convolve_rounds b c (suc left) n d = convolve_rounds b c left (n + 8) (convolve_round b c n d)

  unfoldable pub convolvef : ℕ → (ℕ → Value) → (ℕ → Value) → (ℕ → Value) → ℕ → Value
  unfolding rounds
  convolvef n_fft b c d =
      let d1s = mul (b 0) (c 0) in
      let d2s = mul (b 4) (c 4) in
      update (update (convolve_rounds b c (rounds n_fft) 0 d) 0 d1s) 4 d2s

  -- A round of `convolve_inplacef`: the real parts are kept in `a`, and the rest is read from the
  -- buffer that is written.
  unfoldable pub inplace_round : (ℕ → Value) → ℕ → (ℕ → Value) → ℕ → Value
  unfolding update
  inplace_round c n b =
      let a0 = b n in
      let a1 = b (n + 1) in
      let a2 = b (n + 2) in
      let a3 = b (n + 3) in
      let b0 = update b n (sub (mul a0 (c n)) (mul (b (n + 4)) (c (n + 4)))) in
      let b1 = update b0 (n + 1) (sub (mul a1 (c (n + 1))) (mul (b0 (n + 5)) (c (n + 5)))) in
      let b2 = update b1 (n + 2) (sub (mul a2 (c (n + 2))) (mul (b1 (n + 6)) (c (n + 6)))) in
      let b3 = update b2 (n + 3) (sub (mul a3 (c (n + 3))) (mul (b2 (n + 7)) (c (n + 7)))) in
      let b4 = update b3 (n + 4) (add (mul a0 (c (n + 4))) (mul (b3 (n + 4)) (c n))) in
      let b5 = update b4 (n + 5) (add (mul a1 (c (n + 5))) (mul (b4 (n + 5)) (c (n + 1)))) in
      let b6 = update b5 (n + 6) (add (mul a2 (c (n + 6))) (mul (b5 (n + 6)) (c (n + 2)))) in
      update b6 (n + 7) (add (mul a3 (c (n + 7))) (mul (b6 (n + 7)) (c (n + 3))))

  unfoldable pub inplace_rounds : (ℕ → Value) → ℕ → ℕ → (ℕ → Value) → ℕ → Value
  inplace_rounds c zero n b = b
  inplace_rounds c (suc left) n b = inplace_rounds c left (n + 8) (inplace_round c n b)

  unfoldable pub convolve_inplacef : ℕ → (ℕ → Value) → (ℕ → Value) → ℕ → Value
  unfolding rounds
  convolve_inplacef n_fft b c =
      let d1s = mul (b 0) (c 0) in
      let d2s = mul (b 4) (c 4) in update (update (inplace_rounds c (rounds n_fft) 0 b) 0 d1s) 4 d2s

  -- A round of `convolve_addf`.
  unfoldable pub add_round : (ℕ → Value) → (ℕ → Value) → ℕ → (ℕ → Value) → ℕ → Value
  unfolding update
  add_round b c n d =
      let d0 = update d n (add (d n) (real_part (b n) (b (n + 4)) (c n) (c (n + 4)))) in
      let d1 =
        update d0 (n + 1)
          (add (d0 (n + 1)) (real_part (b (n + 1)) (b (n + 5)) (c (n + 1)) (c (n + 5)))) in
      let d2 =
        update d1 (n + 2)
          (add (d1 (n + 2)) (real_part (b (n + 2)) (b (n + 6)) (c (n + 2)) (c (n + 6)))) in
      let d3 =
        update d2 (n + 3)
          (add (d2 (n + 3)) (real_part (b (n + 3)) (b (n + 7)) (c (n + 3)) (c (n + 7)))) in
      let d4 =
        update d3 (n + 4) (add (d3 (n + 4)) (imaginary_part (b n) (b (n + 4)) (c n) (c (n + 4)))) in
      let d5 =
        update d4 (n + 5)
          (add (d4 (n + 5)) (imaginary_part (b (n + 1)) (b (n + 5)) (c (n + 1)) (c (n + 5)))) in
      let d6 =
        update d5 (n + 6)
          (add (d5 (n + 6)) (imaginary_part (b (n + 2)) (b (n + 6)) (c (n + 2)) (c (n + 6)))) in
      update d6 (n + 7)
        (add (d6 (n + 7)) (imaginary_part (b (n + 3)) (b (n + 7)) (c (n + 3)) (c (n + 7))))

  unfoldable pub add_rounds : (ℕ → Value) → (ℕ → Value) → ℕ → ℕ → (ℕ → Value) → ℕ → Value
  add_rounds b c zero n d = d
  add_rounds b c (suc left) n d = add_rounds b c left (n + 8) (add_round b c n d)

  unfoldable pub convolve_addf : ℕ → (ℕ → Value) → (ℕ → Value) → (ℕ → Value) → ℕ → Value
  unfolding rounds
  convolve_addf n_fft b c d =
      let d1s = add (d 0) (mul (b 0) (c 0)) in
      let d2s = add (d 4) (mul (b 4) (c 4)) in
      update (update (add_rounds b c (rounds n_fft) 0 d) 0 d1s) 4 d2s
