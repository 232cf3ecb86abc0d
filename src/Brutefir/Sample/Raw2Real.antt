-- ===== src/Brutefir/Sample/Raw2Real.antt =====
-- brutefir/raw2real.cpp: `raw2realf` and `raw2reald`, which are one function of the "float" type.
-- Built for a little-endian machine; the message for an unknown size is not modelled.
use foo_dsp_bfir.Base.{ℕ, ◌+◌, ◌-◌, ◌*◌, ◌^◌, ℤ, Bool, ◌==◌, if◌then◌else◌, update}
use foo_dsp_bfir.Brutefir.Real.{Real}
use foo_dsp_bfir.Brutefir.Config.{to_int32}
use foo_dsp_bfir.Brutefir.Sample.Bytes.{
  Memory, u16, u32, u64, swap16, swap32, swap64, to_int8, to_int16, shift_right, for_samples,
}
use foo_dsp_bfir.Brutefir.Sample.Precision.{Precision}

-- The integer read at the index `i`, for each size of a sample; that of 3 bytes is an index of bytes.
unfoldable pub read_int8 : Memory → ℕ → ℕ → ℤ
unfolding to_int8
read_int8 m base i = to_int8 (m (base + i))

unfoldable pub read_int16 : ℕ → Bool → Memory → ℕ → ℕ → ℤ
unfolding to_int16 swap16 u16 shift_right
read_int16 shift swap m base i =
    if shift == 0
    then if swap then to_int16 (swap16 (u16 m base i)) else to_int16 (u16 m base i)
    else if swap
    then shift_right (to_int16 (swap16 (u16 m base i))) shift
    else shift_right (to_int16 (u16 m base i)) shift

-- The lowest byte of `sample` stays 0, and the shift has grown by 8.
unfoldable pub read_int24 : ℕ → Bool → Memory → ℕ → ℕ → ℤ
unfolding to_int32 shift_right
read_int24 shift swap m base i =
    let b0 = m (base + i) in
    let b1 = m (base + (i + 1)) in
    let b2 = m (base + (i + 2)) in
    if swap
    then shift_right (to_int32 (b0 * 2 ^ 24 + b1 * 2 ^ 16 + b2 * 2 ^ 8)) (shift + 8)
    else shift_right (to_int32 (b0 * 2 ^ 8 + b1 * 2 ^ 16 + b2 * 2 ^ 24)) (shift + 8)

unfoldable pub read_int32 : ℕ → Bool → Memory → ℕ → ℕ → ℤ
unfolding to_int32 swap32 u32 shift_right
read_int32 shift swap m base i =
    if shift == 0
    then if swap then to_int32 (swap32 (u32 m base i)) else to_int32 (u32 m base i)
    else if swap
    then shift_right (to_int32 (swap32 (u32 m base i))) shift
    else shift_right (to_int32 (u32 m base i)) shift

module _ {R : Real} (P : Precision R) where
  open P use {Value, of_int, of_bits32, of_bits64}

  -- A loop that fills `realbuf` from the values at the indices.
  unfoldable pub fill : (ℕ → Value) → ℕ → ℕ → (ℕ → Value) → ℕ → Value
  unfolding update for_samples
  fill read step n_samples realbuf =
      for_samples (λ n i buf. update buf n (read i)) step n_samples 0 0 realbuf

  -- The formats of floating point numbers.
  unfoldable pub raw2real_float : ℕ → ℕ → Bool → ℕ → Memory → ℕ → (ℕ → Value) → ℕ → Value
  unfolding fill u32 u64 swap32 swap64
  raw2real_float bytes spacing swap n_samples m base realbuf =
      if bytes == 4
      then if swap
        then fill (λ i. of_bits32 (swap32 (u32 m base i))) spacing n_samples realbuf
        else fill (λ i. of_bits32 (u32 m base i)) spacing n_samples realbuf
      else if bytes == 8
      then if swap
        then fill (λ i. of_bits64 (swap64 (u64 m base i))) spacing n_samples realbuf
        else fill (λ i. of_bits64 (u64 m base i)) spacing n_samples realbuf
      else realbuf

  -- The formats of integers.
  unfoldable pub raw2real_int : ℕ → ℕ → ℕ → Bool → ℕ → Memory → ℕ → (ℕ → Value) → ℕ → Value
  unfolding fill read_int8 read_int16 read_int24 read_int32
  raw2real_int bytes shift spacing swap n_samples m base realbuf =
      if bytes == 1
      then fill (λ i. of_int (read_int8 m base i)) spacing n_samples realbuf
      else if bytes == 2
      then fill (λ i. of_int (read_int16 shift swap m base i)) spacing n_samples realbuf
      else if bytes == 3
      then fill (λ i. of_int (read_int24 shift swap m base i)) (3 + (spacing * 3 - 3)) n_samples
          realbuf
      else if bytes == 4
      then fill (λ i. of_int (read_int32 shift swap m base i)) spacing n_samples realbuf
      else realbuf

  -- `realbuf` afterwards.
  unfoldable pub raw2real : ℕ → ℕ → Bool → ℕ → Bool → ℕ → Memory → ℕ → (ℕ → Value) → ℕ → Value
  unfolding raw2real_float raw2real_int
  raw2real bytes shift isfloat spacing swap n_samples m base realbuf =
      if isfloat
      then if shift == 0
        then raw2real_float bytes spacing swap n_samples m base realbuf
        else realbuf
      else raw2real_int bytes shift spacing swap n_samples m base realbuf
