-- ===== src/Brutefir/Spec.antt =====
-- What a filter of brutefir/brutefir.cpp promises: partitioned convolution of the history of input
-- blocks, with no ring of blocks, no double buffer and no scratch memory.
use foo_dsp_bfir.Base.{
  ℕ, zero, suc, ◌+◌, Bool, true, false, List, [], ◌∷◌, ◌++◌, if◌then◌else◌, update,
}
use foo_dsp_bfir.Brutefir.Real.{Real}
use foo_dsp_bfir.Brutefir.Config.{Overflow}
use foo_dsp_bfir.Brutefir.Convolver.{Convolver}
use foo_dsp_bfir.Brutefir.Filter.{Buffer, Conf, Filter}

-- `silence` is the half buffer before the first block, and `hs n` the coefficient blocks of
-- channel `n`. A history of input blocks has the latest one first.
module _ {R : Real} (cv : Convolver R) (conf : Conf cv) (silence : ℕ → Buffer cv) where
  open cv use {Raw}

  abbrev pub previous : ℕ → List Raw → Buffer cv
  previous n [] = silence n
  previous n (raw ∷ older) = cv.raw2real (conf.inputs n).bf raw

  -- The frequency domain form of a block, by overlap-save: transformed with the block before it.
  abbrev pub spectrum : ℕ → List Raw → Raw → Buffer cv
  spectrum n older raw =
      let ch = conf.inputs n in
      cv.mix_input ch.bf.sf.scale (cv.fft (previous n older ++ cv.raw2real ch.bf raw))

  abbrev pub spectra : ℕ → List Raw → List (Buffer cv)
  spectra n [] = []
  spectra n (raw ∷ older) = spectrum n older raw ∷ spectra n older

module _ {R : Real} (cv : Convolver R) where
  -- Each block with the coefficient block of its age, added to `out`.
  abbrev pub add_products : Buffer cv → List (Buffer cv) → List (Buffer cv) → Buffer cv
  add_products out [] hs' = out
  add_products out (x ∷ xs) [] = out
  add_products out (x ∷ xs) (h ∷ hs') = add_products (cv.convolve_add x h out) xs hs'

  abbrev pub block_convolution : Buffer cv → List (Buffer cv) → List (Buffer cv) → Buffer cv
  block_convolution x xs [] = x
  block_convolution x xs (h ∷ hs') = add_products (cv.convolve x h) xs hs'

  pub record Played : Type 0 where
    pub ok : Bool
    pub outbuf : cv.Raw
    pub overflow : ℕ → Overflow R
    pub dither_state : ℕ → cv.DitherState

  -- What the specification starts a call with.
  abbrev pub started : Filter cv → cv.Raw → Played
  started f outbuf = record {
    ok = true;
    outbuf = outbuf;
    overflow = f.overflow;
    dither_state = f.dither_state;
  }

module _ {R : Real} (cv : Convolver R) (conf : Conf cv) (silence : ℕ → Buffer cv)
    (hs : ℕ → List (Buffer cv)) where
  open cv use {Raw}

  -- The time domain output of a channel for the block `inbuf` after `hist`.
  abbrev pub output : ℕ → List Raw → Raw → Buffer cv
  output n hist inbuf = cv.ifft (
      cv.mix_output (conf.outputs n).bf.sf.scale (
        block_convolution cv (spectrum cv conf silence n hist inbuf)
          (spectra cv conf silence n hist) (hs n)))

  -- The channels' outputs are written in turn, up to the first that is not finite.
  unfoldable pub play : ℕ → ℕ → List Raw → Raw → Played cv → Played cv
  play zero n hist inbuf p = p
  play (suc left) n hist inbuf p =
      let t = output n hist inbuf in
      let ch = conf.outputs n in
      let (raw, of, ds) =
        cv.real2raw ch.bf ch.apply_dither t p.outbuf (p.overflow n) (p.dither_state n) in
      let rest = play left (n + 1) hist inbuf (record p {
        outbuf = raw;
        overflow = update p.overflow n of;
        dither_state = update p.dither_state n ds;
      }) in
      if cv.is_finite t then rest else record p { ok = false }
