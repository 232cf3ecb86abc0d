-- ===== src/Brutefir/Mix/Passes.antt =====
-- brutefir/fftw_convolver.cpp: `mixnscale` as a permutation of the entries, for every number of
-- buffers, and its two modes one after the other.
use foo_dsp_bfir.Base.{
  ℕ, zero, suc, ◌+◌, ◌-◌, ◌*◌, ◌/◌, ◌%◌, ◌≤◌, ◌<◌, ◌≡◌, refl, ◌∙◌, ap, arith, ◌==◌, ltb,
  if◌then◌else◌, lt→ltb,
}
use foo_dsp_bfir.Brutefir.Spectrum.{Float}
use foo_dsp_bfir.Brutefir.Mix.{
  Buffer, Store, rounds, input_first, input_middle, output_first, output_half, output_middle,
  first_rounds, second_rounds, input_case, output_case, mixnscale, mix_input, mix_output,
  mixmode_input, mixmode_output, input_one, input_two, input_three, input_four, input_many,
  output_one, output_two, output_three, output_four, output_many, sum_one, sum_two, sum_three,
  sum_four, store_all, store_many,
}
use foo_dsp_bfir.Brutefir.Mix.Slots.{Stores, store_all-Stores, store_many-Stores, mixed}
use foo_dsp_bfir.Brutefir.Mix.Layout.{
  input_first_lem, input_second_lem, output_first_lem, output_second_lem,
}

-- In groups of eight, the entry that a half-complex buffer of `n_fft` entries has for the index `k`.
abbrev pub input_index : ℕ → ℕ → ℕ
input_index n_fft k =
    if ltb (k % 8) 4
    then k / 8 * 4 + k % 8
    else if k == 4
    then n_fft / 2
    else n_fft - (k / 8 * 4 + (k % 8 - 4))

-- The other way round.
abbrev pub output_index : ℕ → ℕ → ℕ
output_index n_fft k =
    if ltb k (n_fft / 2)
    then k / 4 * 8 + k % 4
    else if k == n_fft / 2
    then 4
    else (n_fft - k) / 4 * 8 + 4 + (n_fft - k) % 4

pub input_index-output_index :
    (n_fft m k : ℕ) → n_fft ≡ 8 * m → k < n_fft → input_index n_fft (output_index n_fft k) ≡ k
input_index-output_index n_fft m k e h = ground arith

pub output_index-lt : (n_fft m k : ℕ) → n_fft ≡ 8 * m → k < n_fft → output_index n_fft k < n_fft
output_index-lt n_fft m k e h = ground arith

module _ (F : Float) (ibufs : ℕ → Buffer F) (sscales : ℕ → F.Value) (store : Store F)
    (value : ℕ → F.Value) (stores : Stores F ibufs sscales store value) where
  input_case_lem :
      (m k : ℕ) (obuf : Buffer F)
      → 1 ≤ m
      → input_case F store (8 * m) obuf k
        ≡ (if ltb k (8 * m) then value (input_index (8 * m) k) else obuf k)
  unfolding input_case
  input_case_lem m k obuf h =
      let first = rounds F store input_first (first_rounds (8 * m)) 0 obuf in
      let middle = store (input_middle (8 * m)) first in
      ground (
        arith,
        input_second_lem F ibufs sscales store value stores (8 * m) (second_rounds (8 * m)) 1 k
            middle,
        stores (input_middle (8 * m)) first k (omega arith),
        input_first_lem F ibufs sscales store value stores (first_rounds (8 * m)) 0 k obuf,
      )

  output_case_lem :
      (m k : ℕ) (obuf : Buffer F)
      → 1 ≤ m
      → output_case F store (8 * m) obuf k
        ≡ (if ltb k (8 * m) then value (output_index (8 * m) k) else obuf k)
  unfolding output_case
  output_case_lem m k obuf h =
      let first = rounds F store output_first (first_rounds (8 * m)) 0 obuf in
      let half = store (output_half (8 * m)) first in
      let middle = store (output_middle (8 * m)) half in
      ground (
        arith,
        output_second_lem F ibufs sscales store value stores (8 * m) (second_rounds (8 * m)) 1 k
            middle (omega arith),
        stores (output_middle (8 * m)) half k (omega arith),
        stores (output_half (8 * m)) first k (omega arith),
        output_first_lem F ibufs sscales store value stores (first_rounds (8 * m)) 0 k obuf,
      )

pub if_lt {ℓ} : {A : Type ℓ} (k n : ℕ) (x y : A) → k < n → (if ltb k n then x else y) ≡ x
if_lt k n x y h = rw (lt→ltb k n h)

module _ (F : Float) (ibufs : ℕ → Buffer F) (sscales : ℕ → F.Value) where
  mix_input-many :
      (n_bufs n_fft : ℕ) (obuf : Buffer F)
      → 5 ≤ n_bufs
      → mix_input F ibufs sscales n_bufs n_fft obuf
        ≡ input_case F (store_many F ibufs sscales n_bufs) n_fft obuf
  unfolding mix_input input_many
  mix_input-many n_bufs n_fft obuf h = ground arith

  mix_input_lem :
      (n_bufs m k : ℕ) (obuf : Buffer F)
      → 1 ≤ m
      → mix_input F ibufs sscales n_bufs (8 * m) obuf k
        ≡ (if ltb k (8 * m) then mixed F ibufs sscales n_bufs (input_index (8 * m) k) else obuf k)
  unfolding mix_input input_one input_two input_three input_four input_many
  mix_input_lem zero m k obuf h =
      input_case_lem F ibufs sscales (store_many F ibufs sscales 0) _
        (store_many-Stores F ibufs sscales 0) m k obuf h
  mix_input_lem (suc zero) m k obuf h =
      input_case_lem F ibufs sscales (store_all F (sum_one F ibufs sscales)) _
        (store_all-Stores F ibufs sscales (sum_one F ibufs sscales)) m k obuf h
  mix_input_lem (suc (suc zero)) m k obuf h =
      input_case_lem F ibufs sscales (store_all F (sum_two F ibufs sscales)) _
        (store_all-Stores F ibufs sscales (sum_two F ibufs sscales)) m k obuf h
  mix_input_lem (suc (suc (suc zero))) m k obuf h =
      input_case_lem F ibufs sscales (store_all F (sum_three F ibufs sscales)) _
        (store_all-Stores F ibufs sscales (sum_three F ibufs sscales)) m k obuf h
  mix_input_lem (suc (suc (suc (suc zero)))) m k obuf h =
      input_case_lem F ibufs sscales (store_all F (sum_four F ibufs sscales)) _
        (store_all-Stores F ibufs sscales (sum_four F ibufs sscales)) m k obuf h
  mix_input_lem (suc (suc (suc (suc (suc n))))) m k obuf h =
      let n_bufs = suc (suc (suc (suc (suc n)))) in
      ap (λ (buf : Buffer F). buf k) (mix_input-many n_bufs (8 * m) obuf (omega arith))
      ∙ input_case_lem F ibufs sscales (store_many F ibufs sscales n_bufs) _
          (store_many-Stores F ibufs sscales n_bufs) m k obuf h

  mix_output-many :
      (n_bufs n_fft : ℕ) (obuf : Buffer F)
      → 5 ≤ n_bufs
      → mix_output F ibufs sscales n_bufs n_fft obuf
        ≡ output_case F (store_many F ibufs sscales n_bufs) n_fft obuf
  unfolding mix_output output_many
  mix_output-many n_bufs n_fft obuf h = ground arith

  mix_output_lem :
      (n_bufs m k : ℕ) (obuf : Buffer F)
      → 1 ≤ m
      → mix_output F ibufs sscales n_bufs (8 * m) obuf k
        ≡ (if ltb k (8 * m) then mixed F ibufs sscales n_bufs (output_index (8 * m) k) else obuf k)
  unfolding mix_output output_one output_two output_three output_four output_many
  mix_output_lem zero m k obuf h =
      output_case_lem F ibufs sscales (store_many F ibufs sscales 0) _
        (store_many-Stores F ibufs sscales 0) m k obuf h
  mix_output_lem (suc zero) m k obuf h =
      output_case_lem F ibufs sscales (store_all F (sum_one F ibufs sscales)) _
        (store_all-Stores F ibufs sscales (sum_one F ibufs sscales)) m k obuf h
  mix_output_lem (suc (suc zero)) m k obuf h =
      output_case_lem F ibufs sscales (store_all F (sum_two F ibufs sscales)) _
        (store_all-Stores F ibufs sscales (sum_two F ibufs sscales)) m k obuf h
  mix_output_lem (suc (suc (suc zero))) m k obuf h =
      output_case_lem F ibufs sscales (store_all F (sum_three F ibufs sscales)) _
        (store_all-Stores F ibufs sscales (sum_three F ibufs sscales)) m k obuf h
  mix_output_lem (suc (suc (suc (suc zero)))) m k obuf h =
      output_case_lem F ibufs sscales (store_all F (sum_four F ibufs sscales)) _
        (store_all-Stores F ibufs sscales (sum_four F ibufs sscales)) m k obuf h
  mix_output_lem (suc (suc (suc (suc (suc n))))) m k obuf h =
      let n_bufs = suc (suc (suc (suc (suc n)))) in
      ap (λ (buf : Buffer F). buf k) (mix_output-many n_bufs (8 * m) obuf (omega arith))
      ∙ output_case_lem F ibufs sscales (store_many F ibufs sscales n_bufs) _
          (store_many-Stores F ibufs sscales n_bufs) m k obuf h

  -- Mixing, for a length that is a positive multiple of 8 and any number of buffers, be it a case of
  -- its own or the default one: in both modes each entry below the length is the sum of one entry of
  -- every buffer, each times its scale and in the order of the buffers; which one is that of the
  -- half-complex layout for the groups of eight, or the other way round. The entries behind the
  -- length are left as they are.
  pub mixnscale_lem :
      (n_bufs m k : ℕ) (obuf : Buffer F)
      → 1 ≤ m
      → (mixnscale F ibufs sscales mixmode_input n_bufs (8 * m) obuf k ≡ (
          if ltb k (8 * m) then mixed F ibufs sscales n_bufs (input_index (8 * m) k) else obuf k))
        × (mixnscale F ibufs sscales mixmode_output n_bufs (8 * m) obuf k ≡ (
            if ltb k (8 * m)
            then mixed F ibufs sscales n_bufs (output_index (8 * m) k)
            else obuf k))
  unfolding mixnscale
  mixnscale_lem n_bufs m k obuf h =
      (mix_input_lem n_bufs m k obuf h, mix_output_lem n_bufs m k obuf h)

-- What is mixed into the groups of eight, from any number of buffers, and then back from there with
-- a scale, is the mix itself in the half-complex layout, times that scale: no entry is lost or taken
-- twice.
mixnscale-mixnscale :
    (F : Float) (ibufs : ℕ → Buffer F) (sscales out_scales : ℕ → F.Value) (n_bufs m k : ℕ)
    (cbuf obuf : Buffer F)
    → 1 ≤ m
    → k < 8 * m
    → mixnscale F
        (λ i. mixnscale F ibufs sscales mixmode_input n_bufs (8 * m) cbuf)
        out_scales
        mixmode_output
        1
        (8 * m)
        obuf
        k
      ≡ F.mul (mixed F ibufs sscales n_bufs k) (out_scales 0)
mixnscale-mixnscale F ibufs sscales out_scales n_bufs m k cbuf obuf one h =
    let spectrum = mixnscale F ibufs sscales mixmode_input n_bufs (8 * m) cbuf in
    let index = output_index (8 * m) k in
    (mixnscale_lem F (λ i. spectrum) out_scales 1 m k obuf one).1
    ∙ if_lt k (8 * m) _ _ h
    ∙ ap (λ (v : F.Value). F.mul v (out_scales 0))
        ((mixnscale_lem F ibufs sscales n_bufs m index cbuf one).0
          ∙ if_lt index (8 * m) _ _ (output_index-lt (8 * m) m k refl h)
          ∙ ap (mixed F ibufs sscales n_bufs) (input_index-output_index (8 * m) m k refl h))
