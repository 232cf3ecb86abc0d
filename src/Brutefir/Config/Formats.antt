-- ===== src/Brutefir/Config/Formats.antt =====
-- brutefir/brutefir.cpp: what `setup_sample_format` gives for each format, and the full scale values.
use foo_dsp_bfir.Base.{
  ℕ, zero, suc, ◌-◌, ◌*◌, ◌^◌, ◌<◌, ◌≤◌, ◌≡◌, ◌≢◌, ◌⊎◌, pos, Bool, true, false, refl, arith,
}
use foo_dsp_bfir.Brutefir.Real.{Real}
use foo_dsp_bfir.Brutefir.Config.{
  Format, s8, unknown, to_int32, get_full_scale, SampleFormat, setup_sample_format,
}

abbrev pub IsKnown : Format → Type 0
IsKnown f = (code : ℕ) → f ≢ unknown code

-- A sample format whose fields agree with one another.
pub record IsConsistent (R : Real) (sf : SampleFormat R) : Type 0 where
  pub packed : sf.sbytes ≡ sf.bytes
  pub nonempty : 0 < sf.bytes
  pub wide : sf.bytes ≤ 8
  pub float_size : sf.isfloat ≡ true → (sf.bytes ≡ 4) ⊎ (sf.bytes ≡ 8)
  pub int_size : sf.isfloat ≡ false → sf.bytes ≤ 4

module _ (R : Real) where
  open R use {of_int, reciprocal}

  -- For a known format code the structure that results has that code, does not depend on what
  -- stood there, and is consistent: no padding bytes, 4 or 8 bytes for a floating point format, at
  -- most 4 for an integer one.
  setup_sample_format-IsConsistent :
      (f : Format) (sf old : SampleFormat R) (normalized : Bool)
      → IsKnown f
      → ((setup_sample_format R f sf normalized).format ≡ f)
        × (setup_sample_format R f sf normalized ≡ setup_sample_format R f old normalized)
        × IsConsistent R (setup_sample_format R f sf normalized)
  unfolding setup_sample_format
  setup_sample_format-IsConsistent (unknown code) sf old normalized known = absurd (known code refl)
  setup_sample_format-IsConsistent s8 sf old normalized known = (refl, refl, ground arith)
  setup_sample_format-IsConsistent _ sf old normalized known = (refl, refl, ground arith)

  -- The full scale of 1, 2 and 3 byte samples is 2^(8 * bytes - 1), as a positive number.
  get_full_scale_small :
      (bytes : ℕ)
      → 0 < bytes
      → bytes ≤ 3
      → get_full_scale R bytes ≡ of_int (pos (2 ^ (bytes * 8 - 1)))
  unfolding get_full_scale to_int32
  get_full_scale_small zero low high = elim low [ ]
  get_full_scale_small (suc zero) low high = refl
  get_full_scale_small (suc (suc zero)) low high = refl
  get_full_scale_small (suc (suc (suc zero))) low high = refl
  get_full_scale_small (suc (suc (suc (suc n)))) low high = absurd (omega arith)
