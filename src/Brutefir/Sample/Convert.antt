-- ===== src/Brutefir/Sample/Convert.antt =====
-- brutefir/fftw_convolver.cpp: the calls of the conversions in `convolver_raw2cbuf` and
-- `convolver_cbuf2raw`, with the functions for `float` and for `double` under their own names. The
-- branches on `realsize` are functions of their own, since a buffer holds one "float" type or the
-- other. The class has an instance of `dither`.
use foo_dsp_bfir.Base.{ℕ, ◌-◌, ◌*◌, Bool, not, ◌&&◌, ℤ, if◌then◌else◌}
use foo_dsp_bfir.Brutefir.Real.{Real}
use foo_dsp_bfir.Brutefir.Config.{BufferFormat, Overflow}
use foo_dsp_bfir.Brutefir.Sample.Bytes.{Memory}
use foo_dsp_bfir.Brutefir.Sample.Precision.{Precision}
use foo_dsp_bfir.Brutefir.Sample.Quantize.{
  DitherState, Dither, real2int_no_dither, real2int_hp_tpdf,
}
use foo_dsp_bfir.Brutefir.Sample.Raw2Real.{raw2real}
use foo_dsp_bfir.Brutefir.Sample.Real2Raw.{real2raw_no_dither, real2raw_hp_tpdf}
use foo_dsp_bfir.Brutefir.Sample.Dither.{preloop}

-- The two "float" types.
pub record Floats (R : Real) : Type 1 where
  pub single : Precision R
  pub double : Precision R

-- `(bf->sf.bytes - bf->sf.sbytes) << 3`
abbrev pub shift_of : {R : Real} → BufferFormat R → ℕ
shift_of bf = (bf.sf.bytes - bf.sf.sbytes) * 8

module _ {R : Real} (P : Precision R) (n_fft2 : ℕ) (bf : BufferFormat R) where
  -- The half buffer that `convolver_raw2cbuf` fills.
  unfoldable pub read_raw : Memory → (ℕ → P.Value) → ℕ → P.Value
  unfolding raw2real
  read_raw rawbuf next_cbuf =
      raw2real P bf.sf.bytes (shift_of bf) bf.sf.isfloat bf.sample_spacing bf.sf.swap n_fft2 rawbuf
        bf.byte_offset next_cbuf

  -- A branch of `convolver_cbuf2raw`: the raw buffer, the overflow entry, the state of the dither
  -- of the channel, and the dither with its table.
  unfoldable pub write_raw :
      Dither P
      → Bool
      → (ℕ → P.Value)
      → Memory × Overflow R × DitherState P
      → (Memory × Overflow R × DitherState P) × Dither P
  unfolding real2raw_no_dither real2raw_hp_tpdf preloop
  write_raw d apply_dither cbuf (outbuf, overflow, st) =
      if apply_dither && not bf.sf.isfloat
      then (let (d', st') = preloop P d st n_fft2 in
          (
            real2raw_hp_tpdf P d' (bf.sf.sbytes * 8) bf.sf.bytes (shift_of bf) bf.sf.isfloat
                bf.sample_spacing bf.sf.swap n_fft2 bf.byte_offset cbuf (outbuf, overflow, st'),
            d',
          ))
      else (let (out, o, _) =
            real2raw_no_dither P (bf.sf.sbytes * 8) bf.sf.bytes (shift_of bf) bf.sf.isfloat
              bf.sample_spacing bf.sf.swap n_fft2 bf.byte_offset cbuf (outbuf, overflow, tt) in
          ((out, o, st), d))

module _ {R : Real} where
  -- What a function that reads takes, from `bytes` on, and one that writes, from `bits` on.
  abbrev pub Reader : Precision R → Type 0
  Reader P = ℕ → ℕ → Bool → ℕ → Bool → ℕ → Memory → ℕ → (ℕ → P.Value) → ℕ → P.Value

  abbrev pub Writer : Precision R → Type 0 → Type 0
  Writer P S =
      ℕ
      → ℕ
      → ℕ
      → Bool
      → ℕ
      → Bool
      → ℕ
      → ℕ
      → (ℕ → P.Value)
      → Memory × Overflow R × S
      → Memory × Overflow R × S

  -- What a quantization takes, from `real_sample` on.
  abbrev pub Quantizer : Precision R → Type 0
  Quantizer P = P.Value → P.Value → P.Value → ℤ → ℤ → Overflow R → ℤ × Overflow R

  abbrev pub Ditherer : Precision R → Type 0
  Ditherer P =
      P.Value
      → P.Value
      → P.Value
      → ℤ
      → ℤ
      → Overflow R
      → DitherState P
      → ℕ
      → ℤ × Overflow R × DitherState P

-- The functions by the names that the code gives them.
module _ {R : Real} (F : Floats R) where
  unfoldable pub raw2realf : Reader F.single
  unfolding raw2real
  raw2realf = raw2real F.single

  unfoldable pub raw2reald : Reader F.double
  unfolding raw2real
  raw2reald = raw2real F.double

  unfoldable pub ditherf_real2int_no_dither : Quantizer F.single
  unfolding real2int_no_dither
  ditherf_real2int_no_dither = real2int_no_dither F.single

  unfoldable pub ditherd_real2int_no_dither : Quantizer F.double
  unfolding real2int_no_dither
  ditherd_real2int_no_dither = real2int_no_dither F.double

  unfoldable pub ditherf_real2int_hp_tpdf : Dither F.single → Ditherer F.single
  unfolding real2int_hp_tpdf
  ditherf_real2int_hp_tpdf = real2int_hp_tpdf F.single

  unfoldable pub ditherd_real2int_hp_tpdf : Dither F.double → Ditherer F.double
  unfolding real2int_hp_tpdf
  ditherd_real2int_hp_tpdf = real2int_hp_tpdf F.double

  unfoldable pub real2rawf_no_dither : Writer F.single (Unit {0})
  unfolding real2raw_no_dither
  real2rawf_no_dither = real2raw_no_dither F.single

  unfoldable pub real2rawd_no_dither : Writer F.double (Unit {0})
  unfolding real2raw_no_dither
  real2rawd_no_dither = real2raw_no_dither F.double

  unfoldable pub real2rawf_hp_tpdf : Dither F.single → Writer F.single (DitherState F.single)
  unfolding real2raw_hp_tpdf
  real2rawf_hp_tpdf = real2raw_hp_tpdf F.single

  unfoldable pub real2rawd_hp_tpdf : Dither F.double → Writer F.double (DitherState F.double)
  unfolding real2raw_hp_tpdf
  real2rawd_hp_tpdf = real2raw_hp_tpdf F.double
