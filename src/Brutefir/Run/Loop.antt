-- ===== src/Brutefir/Run/Loop.antt =====
-- The channel loop of `run` in brutefir/brutefir.cpp against the one of Brutefir/Spec.
use foo_dsp_bfir.Base.{
  ℕ, zero, suc, ◌+◌, ◌^◌, ◌<◌, ◌≤◌, ◌≡◌, ◌≢◌, refl, arith, Bool, true, false, not, List, [], ◌∷◌,
  length, ap, update, inl, inr, Bool-cases, sym, ◌∙◌, some, subst, ℕ_discrete,
}
use foo_dsp_bfir.Brutefir.Real.{Real}
use foo_dsp_bfir.Brutefir.Config.{Overflow}
use foo_dsp_bfir.Brutefir.Convolver.{Convolver, IsLawful}
use foo_dsp_bfir.Brutefir.Filter.{
  Buffer, Conf, Filter, Outcome, done, aborted, fault, take_input, convolved, give_output,
  run_channels,
}
use foo_dsp_bfir.Brutefir.Spec.{Played, started, play, spectra, spectrum, block_convolution}
use foo_dsp_bfir.Brutefir.Run.{Holds, HasCoeffs}
use foo_dsp_bfir.Brutefir.Run.Input.{
  Keeps, take_input-Keeps, Holds-transfer, stored_now, curblock-take_input, take_input-Holds,
}
use foo_dsp_bfir.Brutefir.Run.Sum.{convolved-eq}
use foo_dsp_bfir.Brutefir.Run.Step.{run_channels-next, run_channels-stop, play-next, play-stop}
use mathlib.Core.Path.{subst₂}
use foo_dsp_bfir.Brutefir.Run.Output.{Gives, give_output-Gives, written, time_output}

module _ {R : Real} (cv : Convolver R) (law : IsLawful cv) (conf : Conf cv)
    (silence : ℕ → Buffer cv) (hs : ℕ → List (Buffer cv)) where
  open cv use {Raw}

  module _ (coeffs : HasCoeffs cv conf hs) (hist : List Raw) (raw : Raw)
      (small : length hist < 2 ^ 32) (side : Bool) where
    -- The channels below `n` have taken the block, and the others have not.
    pub record Midway (n : ℕ) (g : Filter cv) : Type 0 where
      pub curbuf : g.curbuf ≡ side
      pub counter : g.blockcounter ≡ length hist
      pub past : (m : ℕ) → m < n → Holds cv conf silence (raw ∷ hist) (not side) g m
      pub ahead : (m : ℕ) → n ≤ m → m < conf.n_channels → Holds cv conf silence hist side g m

    abbrev pub Agrees : Outcome cv → Played cv → Type 0
    Agrees (done g outbuf) p =
        (p.ok ≡ true)
        × (outbuf ≡ p.outbuf)
        × (g.overflow ≡ p.overflow)
        × (g.dither_state ≡ p.dither_state)
        × Midway conf.n_channels g
    Agrees (aborted g outbuf) p =
        (p.ok ≡ false)
        × (outbuf ≡ p.outbuf)
        × (g.overflow ≡ p.overflow)
        × (g.dither_state ≡ p.dither_state)
    Agrees fault p = ⊥

    module _ (n : ℕ) (g : Filter cv) (mid : Midway n g) (below : n < conf.n_channels) where
      abbrev taken : Filter cv
      taken = take_input cv conf n raw g

      keeps : Keeps cv conf silence n g taken
      keeps = take_input-Keeps cv conf silence n raw g

      here : Holds cv conf silence hist g.curbuf g n
      here =
          subst (λ s. Holds cv conf silence hist s g n) (sym mid.curbuf)
            (mid.ahead n (omega arith) below)

      taken-Holds : Holds cv conf silence (raw ∷ hist) (not side) taken n
      taken-Holds =
          subst (λ s. Holds cv conf silence (raw ∷ hist) (not s) taken n) mid.curbuf
            (take_input-Holds cv conf silence law hist raw g n mid.counter here)

      -- The convolution does not fault, and is the one of the specification.
      taken-convolved :
          convolved cv conf n taken
          ≡ some (
              block_convolution cv
                (spectrum cv conf silence n hist raw)
                (spectra cv conf silence n hist)
                (hs n))
      taken-convolved = split (hs n) refl
        where
          split :
              (cs : List (Buffer cv))
              → hs n ≡ cs
              → convolved cv conf n taken
                ≡ some (
                    block_convolution cv
                      (spectrum cv conf silence n hist raw)
                      (spectra cv conf silence n hist)
                      (hs n))
          split [] e =
              absurd (omega (arith, coeffs.nonempty n below, ap (length {A = Buffer cv}) e))
          split (c ∷ cs) e =
              convolved-eq cv conf silence hs hist raw (not side) taken n
                (keeps.blockcounter ∙ mid.counter) small taken-Holds (coeffs.data_set n below) c cs
                law e (coeffs.counted n below) (coeffs.fits n below)
                (curblock-take_input cv conf silence law hist raw g n mid.counter here)
                (stored_now cv conf silence law hist raw g n mid.counter here)

      -- After the output side the next channel is due.
      next-Midway :
          (out : Buffer cv) (outbuf : Raw)
          → Midway (n + 1) (give_output cv conf n out outbuf taken).1
      next-Midway out outbuf = record {
        curbuf = gives.curbuf ∙ keeps.curbuf ∙ mid.curbuf;
        counter = gives.blockcounter ∙ keeps.blockcounter ∙ mid.counter;
        past = λ m h. elim (ℕ_discrete m n) [
          | yes e ↦ rw e (given n taken-Holds)
          | no ne ↦ given m (kept m ne (mid.past m (omega arith)))
        ];
        ahead = λ m h top. given m (kept m (λ e. omega arith) (mid.ahead m (omega arith) top));
      }
        where
          gives :
              Gives cv conf n
                (time_output cv conf n out)
                outbuf
                taken
                (give_output cv conf n out outbuf taken)
          gives = give_output-Gives cv conf n out outbuf taken

          given :
              {hist' : List Raw} {side' : Bool} (m : ℕ)
              → Holds cv conf silence hist' side' taken m
              → Holds cv conf silence hist' side' (give_output cv conf n out outbuf taken).1 m
          given m =
              Holds-transfer cv conf silence _ _ m
                (ap (λ (t : ℕ → Bool → Buffer cv). t m) gives.timecbuf)
                (ap (λ (t : ℕ → ℕ). t m) gives.procblocks)
                (λ many. ap (λ (t : ℕ → ℕ → Buffer cv). t m) (gives.cbuf many))

          kept :
              {hist' : List Raw} {side' : Bool} (m : ℕ)
              → m ≢ n
              → Holds cv conf silence hist' side' g m
              → Holds cv conf silence hist' side' taken m
          kept m ne =
              Holds-transfer cv conf silence _ _ m (keeps.timecbuf m ne) (keeps.procblocks m ne)
                (λ many. keeps.cbuf m ne)

    module _ (n : ℕ) (g : Filter cv) (outbuf : Raw) (out : Buffer cv) where
      abbrev given_back : Bool × Filter cv × Raw
      given_back = give_output cv conf n out outbuf (take_input cv conf n raw g)

      abbrev w : Raw × Overflow R × cv.DitherState
      w = written cv conf n (time_output cv conf n out) outbuf g.overflow g.dither_state

      given_back-next :
          cv.is_finite (time_output cv conf n out) ≡ true
          → (given_back.2 ≡ w.0)
            × (given_back.1.overflow ≡ update g.overflow n w.1)
            × (given_back.1.dither_state ≡ update g.dither_state n w.2)
      unfolding take_input
      given_back-next e =
          let gives = give_output-Gives cv conf n out outbuf (take_input cv conf n raw g) in
          (rw e at gives.raw, rw e at gives.overflow, rw e at gives.dither_state)

      given_back-stop :
          cv.is_finite (time_output cv conf n out) ≡ false
          → (given_back.2 ≡ outbuf)
            × (given_back.1.overflow ≡ g.overflow)
            × (given_back.1.dither_state ≡ g.dither_state)
      unfolding take_input
      given_back-stop e =
          let gives = give_output-Gives cv conf n out outbuf (take_input cv conf n raw g) in
          (rw e at gives.raw, rw e at gives.overflow, rw e at gives.dither_state)

    pub run_channels-Agrees :
        (left n : ℕ) (g : Filter cv) (outbuf : Raw)
        → Midway n g
        → n + left ≡ conf.n_channels
        → Agrees
            (run_channels cv conf left n raw outbuf g)
            (play cv conf silence hs left n hist raw (started cv g outbuf))
    unfolding run_channels play
    run_channels-Agrees zero n g outbuf mid all =
        let last : n ≡ conf.n_channels = omega arith in
        (refl, refl, refl, refl, subst (λ k. Midway k g) last mid)
    run_channels-Agrees (suc left) n g outbuf mid all = elim (Bool-cases (cv.is_finite t)) [
      | inl e ↦
          subst₂ Agrees
            (sym (run_channels-next cv conf left n raw g outbuf out sum (gives.tested ∙ e)))
            (same e ∙ sym (play-next cv conf left n raw silence hs hist (started cv g outbuf) e))
            (run_channels-Agrees left (n + 1) r.1 r.2 (next-Midway n g mid below out outbuf)
              (omega arith))
      | inr e ↦
          subst₂ Agrees
            (sym (run_channels-stop cv conf left n raw g outbuf out sum (gives.tested ∙ e)))
            (sym (play-stop cv conf left n raw silence hs hist (started cv g outbuf) e))
            (let (p, q, d) = given_back-stop n g outbuf out e in (refl, p, q, d))
    ]
      where
        below : n < conf.n_channels
        below = omega arith

        out : Buffer cv
        out =
            block_convolution cv (spectrum cv conf silence n hist raw)
              (spectra cv conf silence n hist) (hs n)

        t : Buffer cv
        t = time_output cv conf n out

        sum : convolved cv conf n (take_input cv conf n raw g) ≡ some out
        sum = taken-convolved n g mid below

        r : Bool × Filter cv × Raw
        r = give_output cv conf n out outbuf (take_input cv conf n raw g)

        gives : Gives cv conf n t outbuf (take_input cv conf n raw g) r
        gives = give_output-Gives cv conf n out outbuf (take_input cv conf n raw g)

        same :
            cv.is_finite t ≡ true
            → play cv conf silence hs left (n + 1) hist raw (started cv r.1 r.2)
              ≡ play cv conf silence hs left (n + 1) hist raw (record {
                ok = true;
                outbuf = (w n g outbuf out).0;
                overflow = update g.overflow n (w n g outbuf out).1;
                dither_state = update g.dither_state n (w n g outbuf out).2;
              })
        same e =
            let (p, q, s) = given_back-next n g outbuf out e in
            λ i.
              play cv conf silence hs left (n + 1) hist raw
                (record { ok = true; outbuf = p i; overflow = q i; dither_state = s i })
