-- ===== src/Brutefir/Sample/RoundTrip.antt =====
-- brutefir/fftw_convolver.cpp, brutefir/raw2real.cpp and brutefir/real2raw.cpp: integer samples that
-- are read for a channel and written again without dither.
use foo_dsp_bfir.Base.{ℕ, zero, suc, ◌+◌, ◌-◌, ◌*◌, ◌≤◌, ◌≡◌, refl, ap, arith, Bool, false}
use foo_dsp_bfir.Brutefir.Real.{Real}
use foo_dsp_bfir.Brutefir.Config.{BufferFormat, Overflow}
use foo_dsp_bfir.Brutefir.Sample.Bytes.{Memory}
use foo_dsp_bfir.Brutefir.Sample.Precision.{Precision}
use foo_dsp_bfir.Brutefir.Sample.Quantize.{Dither, DitherState}
use foo_dsp_bfir.Brutefir.Sample.Raw2Real.{
  raw2real, raw2real_int, read_int8, read_int16, read_int24, read_int32,
}
use foo_dsp_bfir.Brutefir.Sample.Real2Raw.{
  real2raw_int, real2raw, real2raw_no_dither, write_int8, write_int16, write_int24, write_int32,
}
use foo_dsp_bfir.Brutefir.Sample.Convert.{read_raw, write_raw, shift_of}
use foo_dsp_bfir.Brutefir.Sample.Words.{
  IsBytes, write-read_int8, write-read_int16, write-read_int24, write-read_int32,
}
use foo_dsp_bfir.Brutefir.Sample.Whole.{RepresentsInts}
use foo_dsp_bfir.Brutefir.Sample.Integers.{
  IsCopied, written-IsCopied, read_int8-Fits, read_int16-Fits, read_int24-Fits, read_int32-Fits,
}

step24 : (spacing k : ℕ) → 1 ≤ spacing → (3 + (spacing * 3 - 3)) * k ≡ 3 * (spacing * k)
step24 spacing k h = rw (regroup spacing h) (grind arith)
  where
    regroup : (spacing : ℕ) → 1 ≤ spacing → 3 + (spacing * 3 - 3) ≡ spacing * 3
    regroup spacing h = omega arith

module _ {R : Real} (P : Precision R) (spacing n_samples base : ℕ) (positive : 1 ≤ spacing)
    (swap : Bool) (m : Memory) (bytes : IsBytes m) (old : ℕ → P.Value)
    (s : Memory × Overflow R × Unit {0}) where
  -- The buffer read from `m` and written again.
  abbrev rewritten : ℕ → Memory
  rewritten size =
      (real2raw_no_dither P (size * 8) size 0 false spacing swap n_samples base
        (raw2real P size 0 false spacing swap n_samples m base old) s).0

  abbrev Goal : ℕ → Type 0
  Goal size = IsCopied base size spacing n_samples m s.0 (rewritten size)

  copied_s8 : RepresentsInts P 8 → Goal 1
  unfolding real2raw_no_dither real2raw real2raw_int raw2real raw2real_int
  copied_s8 q =
      written-IsCopied P 8 1 spacing n_samples q m (λ i. base + i) (read_int8 m base)
        (write_int8 base) (read_int8-Fits m base) (λ i j out. write-read_int8 m out bytes base i j)
        old base spacing (λ k. omega arith) s

  copied_s16 : RepresentsInts P 16 → Goal 2
  unfolding real2raw_no_dither real2raw real2raw_int raw2real raw2real_int
  copied_s16 q =
      written-IsCopied P 16 2 spacing n_samples q m (λ i. base + 2 * i) (read_int16 0 swap m base)
        (write_int16 0 swap base) (read_int16-Fits swap m base)
        (λ i j out. write-read_int16 m out bytes base i j swap) old base spacing (λ k. refl) s

  copied_s24 : RepresentsInts P 24 → Goal 3
  unfolding real2raw_no_dither real2raw real2raw_int raw2real raw2real_int
  copied_s24 q =
      written-IsCopied P 24 3 (3 + (spacing * 3 - 3)) n_samples q m (λ i. base + i)
        (read_int24 0 swap m base) (write_int24 0 swap base) (read_int24-Fits swap m base)
        (λ i j out. write-read_int24 m out bytes base i j swap) old base spacing
        (λ k. omega (arith, step24 spacing k positive)) s

  copied_s32 : RepresentsInts P 32 → Goal 4
  unfolding real2raw_no_dither real2raw real2raw_int raw2real raw2real_int
  copied_s32 q =
      written-IsCopied P 32 4 spacing n_samples q m (λ i. base + 4 * i) (read_int32 0 swap m base)
        (write_int32 0 swap base) (read_int32-Fits swap m base)
        (λ i j out. write-read_int32 m out bytes base i j swap) old base spacing (λ k. refl) s

  copied_any : (size : ℕ) → 1 ≤ size → size ≤ 4 → RepresentsInts P (size * 8) → Goal size
  copied_any zero lo hi q = absurd (omega arith)
  copied_any (suc zero) lo hi q = copied_s8 q
  copied_any (suc (suc zero)) lo hi q = copied_s16 q
  copied_any (suc (suc (suc zero))) lo hi q = copied_s24 q
  copied_any (suc (suc (suc (suc zero)))) lo hi q = copied_s32 q
  copied_any (suc (suc (suc (suc (suc n))))) lo hi q = absurd (omega arith)

  -- The same with the parameters as the convolver computes them.
  IsCopied-as :
      (bits size shift : ℕ) (isfloat : Bool)
      → 1 ≤ size
      → size ≤ 4
      → RepresentsInts P (size * 8)
      → bits ≡ size * 8
      → shift ≡ 0
      → isfloat ≡ false
      → IsCopied base size spacing n_samples m s.0
          (real2raw_no_dither P bits size shift isfloat spacing swap n_samples base
            (raw2real P size shift isfloat spacing swap n_samples m base old)
            s).0
  IsCopied-as bits size shift isfloat lo hi q e1 e2 e3 = rw (e1, e2, e3) (copied_any size lo hi q)

-- A buffer format of integers, as `setup_sample_format` sets it up.
pub record IsIntFormat {R : Real} (bf : BufferFormat R) : Type 0 where
  pub size_lo : 1 ≤ bf.sf.bytes
  pub size_hi : bf.sf.bytes ≤ 4
  pub no_padding : bf.sf.sbytes ≡ bf.sf.bytes
  pub not_float : bf.sf.isfloat ≡ false
  pub spaced : 1 ≤ bf.sample_spacing

-- Samples that are read for an input channel and written for an output channel of the same integer
-- format, without dither: the bytes of each sample come back, in either byte order, and no other
-- byte of the raw buffer is changed. The "float" type holds the integers of that size, and a half
-- more, exactly.
pub write_raw-read_raw :
    {R : Real} (P : Precision R) (n_fft2 : ℕ) (bf : BufferFormat R) (d : Dither P) (raw : Memory)
    (next_cbuf : ℕ → P.Value) (s : Memory × Overflow R × DitherState P)
    → IsIntFormat bf
    → RepresentsInts P (bf.sf.bytes * 8)
    → IsBytes raw
    → IsCopied bf.byte_offset bf.sf.bytes bf.sample_spacing n_fft2 raw s.0
        (write_raw P n_fft2 bf d false (read_raw P n_fft2 bf raw next_cbuf) s).0.0
unfolding write_raw read_raw
write_raw-read_raw P n_fft2 bf d raw next_cbuf (outbuf, o, st) f q bytes =
    IsCopied-as P bf.sample_spacing n_fft2 bf.byte_offset f.spaced bf.sf.swap raw bytes next_cbuf
      (outbuf, o, tt) (bf.sf.sbytes * 8) bf.sf.bytes (shift_of bf) bf.sf.isfloat f.size_lo f.size_hi
      q (ap (λ (n : ℕ). n * 8) f.no_padding) (omega (arith, f.no_padding)) f.not_float
