-- ===== src/Brutefir/Mix/Layout.antt =====
-- brutefir/fftw_convolver.cpp: the loops of `mixnscale`, for any way to form an entry: which entry of
-- the output each entry of the input goes to.
use foo_dsp_bfir.Base.{
  ℕ, zero, suc, ◌+◌, ◌-◌, ◌*◌, ◌/◌, ◌%◌, ◌≤◌, ◌≡◌, ◌∙◌, ap, arith, ltb, leb, ◌&&◌, if◌then◌else◌,
}
use foo_dsp_bfir.Brutefir.Spectrum.{Float}
use foo_dsp_bfir.Brutefir.Mix.{
  Slots, Buffer, Store, rounds, input_first, input_second, output_first, output_second,
}
use foo_dsp_bfir.Brutefir.Mix.Slots.{Stores}

module _ (F : Float) (ibufs : ℕ → Buffer F) (sscales : ℕ → F.Value) (store : Store F)
    (value : ℕ → F.Value) (stores : Stores F ibufs sscales store value) where
  rounds_next :
      (slots : ℕ → Slots) (left g k : ℕ) (obuf : Buffer F)
      → rounds F store slots (suc left) (4 * g) obuf k
        ≡ rounds F store slots left (4 * (g + 1)) (store (slots (4 * g)) obuf) k
  unfolding rounds
  rounds_next slots left g k obuf =
      ap (λ n. rounds F store slots left n (store (slots (4 * g)) obuf) k) {x = 4 * g + 4}
        (omega arith)

  pub input_first_lem :
      (left g k : ℕ) (obuf : Buffer F)
      → rounds F store input_first left (4 * g) obuf k ≡ (
          if leb (8 * g) k && (ltb k (8 * g + 8 * left) && ltb (k % 8) 4)
          then value (k / 8 * 4 + k % 8)
          else obuf k)
  unfolding rounds
  input_first_lem zero g k obuf = ground arith
  input_first_lem (suc left) g k obuf =
      rounds_next input_first left g k obuf
      ∙ ground (
        arith,
        input_first_lem left (g + 1) k (store (input_first (4 * g)) obuf),
        stores (input_first (4 * g)) obuf k (omega arith),
      )

  pub input_second_lem :
      (n_fft left g k : ℕ) (obuf : Buffer F)
      → rounds F store (input_second n_fft) left (4 * g) obuf k ≡ (
          if leb (8 * g) k && (ltb k (8 * g + 8 * left) && leb 4 (k % 8))
          then value (n_fft - (k / 8 * 4 + (k % 8 - 4)))
          else obuf k)
  unfolding rounds
  input_second_lem n_fft zero g k obuf = ground arith
  input_second_lem n_fft (suc left) g k obuf =
      rounds_next (input_second n_fft) left g k obuf
      ∙ ground (
        arith,
        input_second_lem n_fft left (g + 1) k (store (input_second n_fft (4 * g)) obuf),
        stores (input_second n_fft (4 * g)) obuf k (omega arith),
      )

  pub output_first_lem :
      (left g k : ℕ) (obuf : Buffer F)
      → rounds F store output_first left (4 * g) obuf k
        ≡ (if leb (4 * g) k && ltb k (4 * g + 4 * left) then value (k / 4 * 8 + k % 4) else obuf k)
  unfolding rounds
  output_first_lem zero g k obuf = ground arith
  output_first_lem (suc left) g k obuf =
      rounds_next output_first left g k obuf
      ∙ ground (
        arith,
        output_first_lem left (g + 1) k (store (output_first (4 * g)) obuf),
        stores (output_first (4 * g)) obuf k (omega arith),
      )

  pub output_second_lem :
      (n_fft left g k : ℕ) (obuf : Buffer F)
      → 4 * g + 4 * left ≤ n_fft
      → rounds F store (output_second n_fft) left (4 * g) obuf k ≡ (
          if leb k n_fft && (leb (4 * g) (n_fft - k) && ltb (n_fft - k) (4 * g + 4 * left))
          then value ((n_fft - k) / 4 * 8 + 4 + (n_fft - k) % 4)
          else obuf k)
  unfolding rounds
  output_second_lem n_fft zero g k obuf h = ground arith
  output_second_lem n_fft (suc left) g k obuf h =
      rounds_next (output_second n_fft) left g k obuf
      ∙ ground (
        arith,
        output_second_lem n_fft left (g + 1) k (store (output_second n_fft (4 * g)) obuf)
            (omega arith),
        stores (output_second n_fft (4 * g)) obuf k (omega arith),
      )
