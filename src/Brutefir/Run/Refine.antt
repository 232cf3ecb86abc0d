-- ===== src/Brutefir/Run/Refine.antt =====
-- `brutefir::run` in brutefir/brutefir.cpp refines Brutefir/Spec: one call, and a sequence of calls.
use foo_dsp_bfir.Base.{
  ℕ, ◌+◌, ◌^◌, ◌<◌, ◌≡◌, refl, arith, Bool, true, false, not, List, ◌∷◌, length, sym, subst,
}
use foo_dsp_bfir.Brutefir.Real.{Real}
use foo_dsp_bfir.Brutefir.Convolver.{Convolver, IsLawful}
use foo_dsp_bfir.Brutefir.Filter.{
  Buffer, Conf, Filter, Outcome, done, aborted, fault, run_channels, advance, run,
}
use foo_dsp_bfir.Brutefir.Spec.{Played, started, play}
use foo_dsp_bfir.Brutefir.Run.{Holds, Represents, HasCoeffs}
use foo_dsp_bfir.Brutefir.Run.Input.{Holds-transfer}
use foo_dsp_bfir.Brutefir.Run.Loop.{Midway, Agrees, run_channels-Agrees}

module _ {R : Real} (cv : Convolver R) (conf : Conf cv) (silence : ℕ → Buffer cv) where
  -- What a call leaves, against what the specification plays: the fault is excluded.
  abbrev pub Refines : List cv.Raw → Outcome cv → Played cv → Type 0
  Refines hist (done g outbuf) p =
      (p.ok ≡ true)
      × (outbuf ≡ p.outbuf)
      × (g.overflow ≡ p.overflow)
      × (g.dither_state ≡ p.dither_state)
      × Represents cv conf silence hist g
  Refines hist (aborted g outbuf) p =
      (p.ok ≡ false)
      × (outbuf ≡ p.outbuf)
      × (g.overflow ≡ p.overflow)
      × (g.dither_state ≡ p.dither_state)
  Refines hist fault p = ⊥

module _ {R : Real} (cv : Convolver R) (law : IsLawful cv) (conf : Conf cv)
    (silence : ℕ → Buffer cv) (hs : ℕ → List (Buffer cv)) where
  open cv use {Raw}

  advance-Refines :
      (coeffs : HasCoeffs cv conf hs) (hist : List Raw) (raw : Raw) (small : length hist < 2 ^ 32)
      (side : Bool) (o : Outcome cv) (p : Played cv)
      → length hist + 1 < 2 ^ 32
      → Agrees cv law conf silence hs coeffs hist raw small side o p
      → Refines cv conf silence (raw ∷ hist) (advance cv o) p
  unfolding advance
  advance-Refines coeffs hist raw small side (done g outbuf) p next (a, b, c, d, mid) = (
    a,
    b,
    c,
    d,
    record {
      counter = omega (arith, mid.counter);
      channels = λ n below.
          Holds-transfer cv conf silence (raw ∷ hist) (not g.curbuf) n refl refl (λ many. refl)
            (subst (λ s. Holds cv conf silence (raw ∷ hist) (not s) g n) (sym mid.curbuf)
              (mid.past n below));
    },
  )
  advance-Refines coeffs hist raw small side (aborted g outbuf) p next agrees = agrees
  advance-Refines coeffs hist raw small side fault p next agrees = agrees

  -- A filter that represents a history takes one more block: `run` does not fault, it returns -1
  -- exactly when the specification meets an output that is not finite, it leaves the output buffer,
  -- the overflow entries and the dither states of the specification, and on success the filter
  -- represents the history with the new block. The coefficients of each channel are set to `hs`,
  -- of one block at least and of no more blocks than the filter has, and fewer than 2^32 - 1 blocks
  -- have been taken.
  pub run-Refines :
      (hist : List Raw) (f : Filter cv) (inbuf outbuf : Raw)
      → HasCoeffs cv conf hs
      → length hist + 1 < 2 ^ 32
      → Represents cv conf silence hist f
      → Refines cv conf silence
          (inbuf ∷ hist)
          (run cv conf inbuf outbuf f)
          (play cv conf silence hs conf.n_channels 0 hist inbuf (started cv f outbuf))
  unfolding run
  run-Refines hist f inbuf outbuf coeffs next rep =
      let small : length hist < 2 ^ 32 = omega arith in
      let mid : Midway cv law conf silence hs coeffs hist inbuf small f.curbuf 0 f = record {
        curbuf = refl;
        counter = rep.counter;
        past = λ m h. absurd (omega arith);
        ahead = λ m low below. rep.channels m below;
      } in
      advance-Refines coeffs hist inbuf small f.curbuf
        (run_channels cv conf conf.n_channels 0 inbuf outbuf f)
        (play cv conf silence hs conf.n_channels 0 hist inbuf (started cv f outbuf)) next
        (run_channels-Agrees cv law conf silence hs coeffs hist inbuf small f.curbuf conf.n_channels
          0 f outbuf mid (omega arith))
