-- ===== src/Brutefir/Sample/Real2Raw.antt =====
-- brutefir/real2raw.cpp: the four functions, which differ in the "float" type and in the macro
-- REAL2INT_CALL. Built for a little-endian machine; the messages are not modelled.
use foo_dsp_bfir.Base.{ℕ, ◌+◌, ◌-◌, ◌*◌, ◌^◌, ℤ, pos, Bool, ◌==◌, if◌then◌else◌}
use foo_dsp_bfir.Brutefir.Real.{Real}
use foo_dsp_bfir.Brutefir.Config.{Overflow, to_int32}
use foo_dsp_bfir.Brutefir.Sample.Bytes.{
  Memory, byte_of, set_u8, set_u16, set_u32, set_u64, swap16, swap32, swap64, word_of, shift_left,
  for_samples,
}
use foo_dsp_bfir.Brutefir.Sample.Precision.{Precision}
use foo_dsp_bfir.Brutefir.Sample.Quantize.{
  DitherState, Dither, count_overflow, real2int_no_dither, real2int_hp_tpdf,
}

-- The integer written at the index `i`, for each size of a sample.
unfoldable pub write_int8 : ℕ → ℕ → ℤ → Memory → Memory
unfolding set_u8 word_of
write_int8 base i k m = set_u8 m base i (word_of k)

unfoldable pub write_int16 : ℕ → Bool → ℕ → ℕ → ℤ → Memory → Memory
unfolding set_u16 swap16 word_of shift_left
write_int16 shift swap base i k m =
    if shift == 0
    then if swap then set_u16 m base i (swap16 (word_of k)) else set_u16 m base i (word_of k)
    else if swap
    then set_u16 m base i (swap16 (shift_left k shift))
    else set_u16 m base i (shift_left k shift)

-- `w` is the `sample` of which three bytes are written.
unfoldable pub write_bytes24 : Bool → ℕ → ℕ → ℕ → Memory → Memory
unfolding set_u8
write_bytes24 swap base i w m =
    if swap
    then set_u8 (set_u8 (set_u8 m base i (byte_of w 2)) base (i + 1) (byte_of w 1)) base (i + 2)
        (byte_of w 0)
    else set_u8 (set_u8 (set_u8 m base i (byte_of w 0)) base (i + 1) (byte_of w 1)) base (i + 2)
        (byte_of w 2)

unfoldable pub write_int24 : ℕ → Bool → ℕ → ℕ → ℤ → Memory → Memory
unfolding write_bytes24 word_of shift_left
write_int24 shift swap base i k m =
    if shift == 0
    then write_bytes24 swap base i (word_of k) m
    else write_bytes24 swap base i (shift_left k shift) m

unfoldable pub write_int32 : ℕ → Bool → ℕ → ℕ → ℤ → Memory → Memory
unfolding set_u32 swap32 word_of shift_left
write_int32 shift swap base i k m =
    if shift == 0
    then if swap then set_u32 m base i (swap32 (word_of k)) else set_u32 m base i (word_of k)
    else if swap
    then set_u32 m base i (swap32 (shift_left k shift))
    else set_u32 m base i (shift_left k shift)

-- `imin` and `imax`, computed on `int`.
unfoldable pub int_min : ℕ → ℤ
unfolding to_int32
int_min bits = to_int32 (2 ^ 32 - 2 ^ (bits - 1))

unfoldable pub int_max : ℕ → ℤ
unfolding to_int32
int_max bits = to_int32 (2 ^ (bits - 1) + 2 ^ 32 - 1)

module _ {R : Real} (P : Precision R) where
  open P use {Value, lt, of_int, neg, widen, narrow, bits32, bits64, lt_double, neg_double}

  -- REAL_OVERFLOW_UPDATE
  unfoldable pub overflow_update : Value → Value → Value → Overflow R → Overflow R
  unfolding count_overflow
  overflow_update rmin rmax v o =
      if lt v (of_int (pos 0))
      then (let counted = if lt v rmin then count_overflow P o else o in
          if lt_double (widen v) (neg_double o.largest)
          then record counted { largest = widen (neg v) }
          else counted)
      else (let counted = if lt rmax v then count_overflow P o else o in
          if lt_double o.largest (widen v) then record counted { largest = widen v } else counted)

  -- The rest of the state, `S`, is that of the dither, where there is one.
  module _ (S : Type 0) where
    abbrev pub Written : Type 0
    Written = Memory × Overflow R × S

    -- A loop of the floating point formats.
    unfoldable pub write_floats :
        (ℕ → Value → Memory → Memory) → ℕ → ℕ → (ℕ → Value) → Written → Written
    unfolding for_samples overflow_update
    write_floats write spacing n_samples realbuf start =
        let rmin = narrow (neg_double start.1.max) in
        let rmax = narrow start.1.max in
        for_samples
          (λ n i s. (write i (realbuf n) s.0, overflow_update rmin rmax (realbuf n) s.1, s.2))
          spacing n_samples 0 0 start

    unfoldable pub real2raw_float : ℕ → ℕ → Bool → ℕ → ℕ → (ℕ → Value) → Written → Written
    unfolding write_floats set_u32 set_u64 swap32 swap64
    real2raw_float bytes spacing swap n_samples base realbuf s =
        if bytes == 4
        then if swap
          then write_floats (λ i v m. set_u32 m base i (swap32 (bits32 v))) spacing n_samples
              realbuf s
          else write_floats (λ i v m. set_u32 m base i (bits32 v)) spacing n_samples realbuf s
        else if bytes == 8
        then if swap
          then write_floats (λ i v m. set_u64 m base i (swap64 (bits64 v))) spacing n_samples
              realbuf s
          else write_floats (λ i v m. set_u64 m base i (bits64 v)) spacing n_samples realbuf s
        else s

    module _
        (real2int : Value → Value → Value → ℤ → ℤ → Overflow R → S → ℕ → ℤ × Overflow R × S) where
      -- A loop of the integer formats.
      unfoldable pub write_ints :
          (ℕ → ℤ → Memory → Memory) → ℕ → ℕ → ℕ → (ℕ → Value) → Written → Written
      unfolding for_samples int_min int_max
      write_ints write bits step n_samples realbuf start =
          let imin = int_min bits in
          let imax = int_max bits in
          let rmin = of_int imin in
          let rmax = of_int imax in
          for_samples
            (λ n i s.
              let (sample, o, st) = real2int (realbuf n) rmin rmax imin imax s.1 s.2 n in
              (write i sample s.0, o, st))
            step n_samples 0 0 start

      unfoldable pub real2raw_int : ℕ → ℕ → ℕ → ℕ → Bool → ℕ → ℕ → (ℕ → Value) → Written → Written
      unfolding write_ints write_int8 write_int16 write_int24 write_int32
      real2raw_int bits bytes shift spacing swap n_samples base realbuf s =
          if bytes == 1
          then write_ints (write_int8 base) bits spacing n_samples realbuf s
          else if bytes == 2
          then write_ints (write_int16 shift swap base) bits spacing n_samples realbuf s
          else if bytes == 3
          then write_ints (write_int24 shift swap base) bits (3 + (spacing * 3 - 3)) n_samples
              realbuf s
          else if bytes == 4
          then write_ints (write_int32 shift swap base) bits spacing n_samples realbuf s
          else s

      -- The body that the four functions share.
      unfoldable pub real2raw :
          ℕ → ℕ → ℕ → Bool → ℕ → Bool → ℕ → ℕ → (ℕ → Value) → Written → Written
      unfolding real2raw_float real2raw_int
      real2raw bits bytes shift isfloat spacing swap n_samples base realbuf s =
          if isfloat
          then if shift == 0 then real2raw_float bytes spacing swap n_samples base realbuf s else s
          else real2raw_int bits bytes shift spacing swap n_samples base realbuf s

  -- REAL2INT_CALL without dither
  abbrev pub without_dither :
      Value → Value → Value → ℤ → ℤ → Overflow R → Unit {0} → ℕ → ℤ × Overflow R × Unit {0}
  without_dither v rmin rmax imin imax o st n =
      let (sample, o') = real2int_no_dither P v rmin rmax imin imax o in (sample, o', st)

  -- `real2rawf_no_dither` and `real2rawd_no_dither`
  unfoldable pub real2raw_no_dither :
      ℕ
      → ℕ
      → ℕ
      → Bool
      → ℕ
      → Bool
      → ℕ
      → ℕ
      → (ℕ → Value)
      → Memory × Overflow R × Unit {0}
      → Memory × Overflow R × Unit {0}
  unfolding real2raw real2int_no_dither
  real2raw_no_dither = real2raw (Unit {0}) without_dither

  -- `real2rawf_hp_tpdf` and `real2rawd_hp_tpdf`
  unfoldable pub real2raw_hp_tpdf :
      Dither P
      → ℕ
      → ℕ
      → ℕ
      → Bool
      → ℕ
      → Bool
      → ℕ
      → ℕ
      → (ℕ → Value)
      → Memory × Overflow R × DitherState P
      → Memory × Overflow R × DitherState P
  unfolding real2raw real2int_hp_tpdf
  real2raw_hp_tpdf d = real2raw (DitherState P) (real2int_hp_tpdf P d)
