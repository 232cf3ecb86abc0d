-- ===== src/Brutefir/Run/Step.antt =====
-- One round of the channel loop of `run` in brutefir/brutefir.cpp, and of Brutefir/Spec.
use foo_dsp_bfir.Base.{ℕ, suc, ◌+◌, ◌≡◌, Bool, true, false, List, some, update}
use foo_dsp_bfir.Brutefir.Real.{Real}
use foo_dsp_bfir.Brutefir.Convolver.{Convolver}
use foo_dsp_bfir.Brutefir.Filter.{
  Buffer, Conf, Filter, aborted, take_input, convolved, give_output, run_channels,
}
use foo_dsp_bfir.Brutefir.Spec.{Played, play, output}
use foo_dsp_bfir.Brutefir.Run.Output.{written}

module _ {R : Real} (cv : Convolver R) (conf : Conf cv) (left n : ℕ) (inbuf : cv.Raw) where
  open cv use {Raw}

  module _ (g : Filter cv) (outbuf : Raw) (out : Buffer cv)
      (e : convolved cv conf n (take_input cv conf n inbuf g) ≡ some out) where
    abbrev result : Bool × Filter cv × Raw
    result = give_output cv conf n out outbuf (take_input cv conf n inbuf g)

    pub run_channels-next :
        result.0 ≡ true
        → run_channels cv conf (suc left) n inbuf outbuf g
          ≡ run_channels cv conf left (n + 1) inbuf result.2 result.1
    unfolding run_channels
    run_channels-next t = rw (e, run_channels, t)

    pub run_channels-stop :
        result.0 ≡ false
        → run_channels cv conf (suc left) n inbuf outbuf g ≡ aborted result.1 result.2
    unfolding run_channels
    run_channels-stop t = rw (e, run_channels, t)

  module _ (silence : ℕ → Buffer cv) (hs : ℕ → List (Buffer cv)) (hist : List Raw)
      (p : Played cv) where
    abbrev t : Buffer cv
    t = output cv conf silence hs n hist inbuf

    pub play-next :
        cv.is_finite t ≡ true
        → play cv conf silence hs (suc left) n hist inbuf p ≡ (
            let w = written cv conf n t p.outbuf p.overflow p.dither_state in
            play cv conf silence hs left (n + 1) hist inbuf (record p {
              outbuf = w.0;
              overflow = update p.overflow n w.1;
              dither_state = update p.dither_state n w.2;
            }))
    unfolding play
    play-next e = rw e

    pub play-stop :
        cv.is_finite t ≡ false
        → play cv conf silence hs (suc left) n hist inbuf p ≡ record p { ok = false }
    unfolding play
    play-stop e = rw e
