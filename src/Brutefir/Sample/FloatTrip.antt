-- ===== src/Brutefir/Sample/FloatTrip.antt =====
-- brutefir/fftw_convolver.cpp, brutefir/raw2real.cpp and brutefir/real2raw.cpp: floating point samples
-- that are read for a channel and written again.
use foo_dsp_bfir.Base.{
  ℕ, ◌+◌, ◌*◌, ◌^◌, ◌<◌, ◌≡◌, ◌⊎◌, inl, inr, refl, arith, Bool, true, false, not, ◌&&◌,
}
use foo_dsp_bfir.Brutefir.Real.{Real}
use foo_dsp_bfir.Brutefir.Config.{BufferFormat, Overflow}
use foo_dsp_bfir.Brutefir.Sample.Bytes.{Memory, u32, u64, set_u32, set_u64, swap32, swap64}
use foo_dsp_bfir.Brutefir.Sample.Precision.{Precision}
use foo_dsp_bfir.Brutefir.Sample.Quantize.{Dither, DitherState}
use foo_dsp_bfir.Brutefir.Sample.Raw2Real.{fill, raw2real, raw2real_float}
use foo_dsp_bfir.Brutefir.Sample.Real2Raw.{
  write_floats, overflow_update, real2raw_float, real2raw, real2raw_no_dither,
}
use foo_dsp_bfir.Brutefir.Sample.Convert.{read_raw, write_raw, shift_of}
use foo_dsp_bfir.Brutefir.Sample.Words.{
  IsBytes, copied, set-u32, set-u64, u32-lt, u64-lt, swap32-swap32, swap32-lt, swap64-swap64,
  swap64-lt,
}
use foo_dsp_bfir.Brutefir.Sample.Copy.{fill-read, loop-sample, loop-other}
use foo_dsp_bfir.Brutefir.Sample.Integers.{IsCopied}

-- What is used of the "float" type: a floating point number of this size keeps its bits, also
-- where it is cast to the other type and back.
pub record KeepsBits {R : Real} (P : Precision R) (size : ℕ) : Type 0 where
  pub keeps32 : size ≡ 4 → (w : ℕ) → w < 2 ^ 32 → P.bits32 (P.of_bits32 w) ≡ w
  pub keeps64 : size ≡ 8 → (w : ℕ) → w < 2 ^ 64 → P.bits64 (P.of_bits64 w) ≡ w

-- The loops of one format.
module _ {R : Real} (P : Precision R) (size spacing n_samples base : ℕ) (m : Memory)
    (read : ℕ → P.Value) (write : ℕ → P.Value → Memory → Memory)
    (copies : (i j : ℕ) (out : Memory)
      → write i (read i) out j ≡ copied m out (base + size * i) size j)
    (old : ℕ → P.Value) (s : Memory × Overflow R × Unit {0}) where
  abbrev read_buffer : ℕ → P.Value
  read_buffer = fill P read spacing n_samples old

  abbrev round :
      P.Value → P.Value → ℕ → ℕ → Memory × Overflow R × Unit {0} → Memory × Overflow R × Unit {0}
  round rmin rmax n i s =
      (write i (read_buffer n) s.0, overflow_update P rmin rmax (read_buffer n) s.1, s.2)

  round-copied :
      (rmin rmax : P.Value) (n j : ℕ) (s : Memory × Overflow R × Unit {0})
      → n < n_samples
      → (round rmin rmax n (spacing * n) s).0 j ≡ copied m s.0 (base + size * (spacing * n)) size j
  round-copied rmin rmax n j s h =
      rw (fill-read P read spacing n_samples old n h) (copies (spacing * n) j s.0)

  floats-IsCopied :
      IsCopied base size spacing n_samples m s.0
        (write_floats P (Unit {0}) write spacing n_samples read_buffer s).0
  unfolding write_floats
  floats-IsCopied =
      let rmin = P.narrow (P.neg_double s.1.max) in
      let rmax = P.narrow s.1.max in
      let address = λ (i : ℕ). base + size * i in
      record {
        sample = λ k j.
            loop-sample (λ s. s.0) m size spacing address (round rmin rmax) n_samples
              (round-copied rmin rmax) k j s;
        other = λ j.
            loop-other (λ s. s.0) m size spacing address (round rmin rmax) n_samples
              (round-copied rmin rmax) j s;
      }

module _ {R : Real} (P : Precision R) (spacing n_samples base : ℕ) (m : Memory) (bytes : IsBytes m)
    (old : ℕ → P.Value) (s : Memory × Overflow R × Unit {0}) where
  abbrev Goal : ℕ → Bool → Type 0
  Goal size swap =
      IsCopied base size spacing n_samples m s.0
        (real2raw_float P (Unit {0}) size spacing swap n_samples base
          (raw2real_float P size spacing swap n_samples m base old) s).0

  copied_float : KeepsBits P 4 → (swap : Bool) → Goal 4 swap
  unfolding real2raw_float raw2real_float
  copied_float k true =
      floats-IsCopied P 4 spacing n_samples base m (λ i. P.of_bits32 (swap32 (u32 m base i)))
        (λ i v m. set_u32 m base i (swap32 (P.bits32 v)))
        (λ i j out.
          rw
            (
              k.keeps32 refl (swap32 (u32 m base i)) (swap32-lt (u32 m base i)),
              swap32-swap32 (u32 m base i) (u32-lt m out bytes base i j),
            )
            (set-u32 m out bytes base i j))
        old s
  copied_float k false =
      floats-IsCopied P 4 spacing n_samples base m (λ i. P.of_bits32 (u32 m base i))
        (λ i v m. set_u32 m base i (P.bits32 v))
        (λ i j out.
          rw (k.keeps32 refl (u32 m base i) (u32-lt m out bytes base i j))
            (set-u32 m out bytes base i j))
        old s

  copied_float64 : KeepsBits P 8 → (swap : Bool) → Goal 8 swap
  unfolding real2raw_float raw2real_float
  copied_float64 k true =
      floats-IsCopied P 8 spacing n_samples base m (λ i. P.of_bits64 (swap64 (u64 m base i)))
        (λ i v m. set_u64 m base i (swap64 (P.bits64 v)))
        (λ i j out.
          rw
            (
              k.keeps64 refl (swap64 (u64 m base i)) (swap64-lt (u64 m base i)),
              swap64-swap64 (u64 m base i) (u64-lt m out bytes base i j),
            )
            (set-u64 m out bytes base i j))
        old s
  copied_float64 k false =
      floats-IsCopied P 8 spacing n_samples base m (λ i. P.of_bits64 (u64 m base i))
        (λ i v m. set_u64 m base i (P.bits64 v))
        (λ i j out.
          rw (k.keeps64 refl (u64 m base i) (u64-lt m out bytes base i j))
            (set-u64 m out bytes base i j))
        old s

  copied_any :
      (size : ℕ) → (size ≡ 4) ⊎ (size ≡ 8) → KeepsBits P size → (swap : Bool) → Goal size swap
  copied_any size (inl e) k swap = rw e (copied_float (rw (← e) k) swap)
  copied_any size (inr e) k swap = rw e (copied_float64 (rw (← e) k) swap)

  -- The same with the parameters as the convolver computes them.
  IsCopied-as :
      (bits size shift : ℕ) (isfloat swap : Bool)
      → (size ≡ 4) ⊎ (size ≡ 8)
      → KeepsBits P size
      → shift ≡ 0
      → isfloat ≡ true
      → IsCopied base size spacing n_samples m s.0
          (real2raw_no_dither P bits size shift isfloat spacing swap n_samples base
            (raw2real P size shift isfloat spacing swap n_samples m base old)
            s).0
  unfolding real2raw_no_dither real2raw raw2real
  IsCopied-as bits size shift isfloat swap known k e1 e2 =
      rw (e1, e2) (copied_any size known k swap)

-- A buffer format of floating point numbers, as `setup_sample_format` sets it up.
pub record IsFloatFormat {R : Real} (bf : BufferFormat R) : Type 0 where
  pub known_size : (bf.sf.bytes ≡ 4) ⊎ (bf.sf.bytes ≡ 8)
  pub no_padding : bf.sf.sbytes ≡ bf.sf.bytes
  pub is_float : bf.sf.isfloat ≡ true

float_undithered :
    (apply_dither isfloat : Bool) → isfloat ≡ true → (apply_dither && not isfloat) ≡ false
float_undithered true true e = refl
float_undithered true false e = cc
float_undithered false isfloat e = refl

-- Samples that are read for an input channel and written for an output channel of the same floating
-- point format: whether dither is asked for or not, the bytes of each sample come back, in either
-- byte order and with nothing cut off, and no other byte of the raw buffer is changed. The "float"
-- type keeps the bits of that size.
pub write_raw-read_raw_float :
    {R : Real} (P : Precision R) (n_fft2 : ℕ) (bf : BufferFormat R) (d : Dither P)
    (apply_dither : Bool) (raw : Memory) (next_cbuf : ℕ → P.Value)
    (s : Memory × Overflow R × DitherState P)
    → IsFloatFormat bf
    → KeepsBits P bf.sf.bytes
    → IsBytes raw
    → IsCopied bf.byte_offset bf.sf.bytes bf.sample_spacing n_fft2 raw s.0
        (write_raw P n_fft2 bf d apply_dither (read_raw P n_fft2 bf raw next_cbuf) s).0.0
unfolding write_raw read_raw
write_raw-read_raw_float P n_fft2 bf d apply_dither raw next_cbuf (outbuf, o, st) f k bytes =
    rw (float_undithered apply_dither bf.sf.isfloat f.is_float) (
      IsCopied-as P bf.sample_spacing n_fft2 bf.byte_offset raw bytes next_cbuf (outbuf, o, tt)
        (bf.sf.sbytes * 8) bf.sf.bytes (shift_of bf) bf.sf.isfloat bf.sf.swap f.known_size k
        (omega (arith, f.no_padding)) f.is_float)
