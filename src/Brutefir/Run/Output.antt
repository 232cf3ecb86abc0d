-- ===== src/Brutefir/Run/Output.antt =====
-- The output side of the loop body of `run` in brutefir/brutefir.cpp: what is written, and that
-- neither the scratch use of `ocbuf[0]` nor the memory shared by `cbuf[n][0]` and `ocbuf[n]` shows.
use foo_dsp_bfir.Base.{
  ℕ, ◌<◌, ◌≡◌, refl, arith, Bool, update, update_self, inl, inr, Bool-cases, if◌then◌else◌, sym,
}
use foo_dsp_bfir.Brutefir.Real.{Real}
use foo_dsp_bfir.Brutefir.Config.{Overflow}
use foo_dsp_bfir.Brutefir.Convolver.{Convolver}
use foo_dsp_bfir.Brutefir.Filter.{Buffer, Conf, Filter, store_ocbuf, give_output}

module _ {R : Real} (cv : Convolver R) (conf : Conf cv) where
  open cv use {Raw, DitherState}

  -- What the conversion of a time domain output leaves in the output buffer and in the states.
  abbrev pub written :
      ℕ → Buffer cv → Raw → (ℕ → Overflow R) → (ℕ → DitherState) → Raw × Overflow R × DitherState
  written n t outbuf overflow dither_state =
      let ch = conf.outputs n in
      cv.real2raw ch.bf ch.apply_dither t outbuf (overflow n) (dither_state n)

  pub record Gives (n : ℕ) (t : Buffer cv) (outbuf : Raw) (f : Filter cv)
      (r : Bool × Filter cv × Raw) : Type 0 where
    pub curbuf : r.1.curbuf ≡ f.curbuf
    pub blockcounter : r.1.blockcounter ≡ f.blockcounter
    pub timecbuf : r.1.input_timecbuf ≡ f.input_timecbuf
    pub procblocks : r.1.procblocks ≡ f.procblocks
    pub cbuf : 1 < conf.n_blocks → r.1.cbuf ≡ f.cbuf
    pub tested : r.0 ≡ cv.is_finite t
    pub raw :
        r.2 ≡ (if cv.is_finite t then (written n t outbuf f.overflow f.dither_state).0 else outbuf)
    pub overflow : r.1.overflow ≡ (
        if cv.is_finite t
        then update f.overflow n (written n t outbuf f.overflow f.dither_state).1
        else f.overflow)
    pub dither_state : r.1.dither_state ≡ (
        if cv.is_finite t
        then update f.dither_state n (written n t outbuf f.overflow f.dither_state).2
        else f.dither_state)

  abbrev pub time_output : ℕ → Buffer cv → Buffer cv
  time_output n out = cv.ifft (cv.mix_output (conf.outputs n).bf.sf.scale out)

  same_blocks :
      (n m : ℕ) (v w : Buffer cv) (f : Filter cv)
      → 1 < conf.n_blocks
      → (store_ocbuf cv conf m w (store_ocbuf cv conf n v f)).cbuf ≡ f.cbuf
  unfolding store_ocbuf
  same_blocks n m v w f many = ground arith

  pub give_output-Gives :
      (n : ℕ) (out : Buffer cv) (outbuf : Raw) (f : Filter cv)
      → Gives n (time_output n out) outbuf f (give_output cv conf n out outbuf f)
  unfolding give_output
  give_output-Gives n out outbuf f =
      rw (update_self, update_self)
        (elim (Bool-cases (cv.is_finite (time_output n out))) [
          | inl e ↦ rw e (record {
            curbuf = refl;
            blockcounter = refl;
            timecbuf = refl;
            procblocks = refl;
            cbuf = same_blocks n 0 out (time_output n out) f;
            tested = sym e;
            raw = rw e;
            overflow = rw e;
            dither_state = rw e;
          })
          | inr e ↦ rw e (record {
            curbuf = refl;
            blockcounter = refl;
            timecbuf = refl;
            procblocks = refl;
            cbuf = same_blocks n 0 out (time_output n out) f;
            tested = sym e;
            raw = rw e;
            overflow = rw e;
            dither_state = rw e;
          })
        ])
