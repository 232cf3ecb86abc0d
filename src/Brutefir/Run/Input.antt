-- ===== src/Brutefir/Run/Input.antt =====
-- The input side of the loop body of `run` in brutefir/brutefir.cpp: the channel then holds the
-- history with the new block, and the other channels are as they were.
use foo_dsp_bfir.Base.{
  ℕ, zero, suc, ◌-◌, ◌%◌, ◌<◌, ◌≡◌, ◌≢◌, refl, arith, Bool, true, false, not, List, ◌∷◌, take,
  length, ap, min, update_self, update_ne, some, get_elem?, ◌∙◌, sym,
}
use foo_dsp_bfir.Brutefir.Real.{Real}
use foo_dsp_bfir.Brutefir.Convolver.{Convolver, IsLawful, raw2cbuf}
use foo_dsp_bfir.Brutefir.Filter.{Buffer, Conf, Filter, both, take_input}
use foo_dsp_bfir.Brutefir.Spec.{spectrum, spectra}
use foo_dsp_bfir.Brutefir.Run.{Holds}
use foo_dsp_bfir.Brutefir.Run.Ring.{sub-mod-ne, take-append}

module _ {R : Real} (cv : Convolver R) (conf : Conf cv) (silence : ℕ → Buffer cv) where
  open cv use {Raw}

  both-not : (b : Bool) (x y : Buffer cv) → both cv b x y (not b) ≡ y
  unfolding both
  both-not true x y = refl
  both-not false x y = refl

  -- The other channels keep their state, and the shared state is not touched.
  pub record Keeps (n : ℕ) (f g : Filter cv) : Type 0 where
    pub curbuf : g.curbuf ≡ f.curbuf
    pub blockcounter : g.blockcounter ≡ f.blockcounter
    pub overflow : g.overflow ≡ f.overflow
    pub dither_state : g.dither_state ≡ f.dither_state
    pub timecbuf : (m : ℕ) → m ≢ n → g.input_timecbuf m ≡ f.input_timecbuf m
    pub procblocks : (m : ℕ) → m ≢ n → g.procblocks m ≡ f.procblocks m
    pub cbuf : (m : ℕ) → m ≢ n → g.cbuf m ≡ f.cbuf m

  pub take_input-Keeps :
      (n : ℕ) (raw : Raw) (f : Filter cv) → Keeps n f (take_input cv conf n raw f)
  unfolding take_input
  take_input-Keeps n raw f = record {
    curbuf = refl;
    blockcounter = refl;
    overflow = refl;
    dither_state = refl;
    timecbuf = λ m ne. update_ne _ n m _ ne;
    procblocks = λ m ne. update_ne _ n m _ ne;
    cbuf = λ m ne. update_ne _ n m _ ne;
  }

  -- A channel's state depends on its own buffers only.
  pub Holds-transfer :
      (hist : List Raw) (side : Bool) {f g : Filter cv} (n : ℕ)
      → g.input_timecbuf n ≡ f.input_timecbuf n
      → g.procblocks n ≡ f.procblocks n
      → (1 < conf.n_blocks → g.cbuf n ≡ f.cbuf n)
      → Holds cv conf silence hist side f n
      → Holds cv conf silence hist side g n
  Holds-transfer hist side {f} {g} n t p c h = record {
    front = rw t h.front;
    processed = p ∙ h.processed;
    stored = λ many j below. rw (c many) (h.stored many j below);
  }

  module _ (law : IsLawful cv) (hist : List Raw) (raw : Raw) (f : Filter cv) (n : ℕ)
      (counter : f.blockcounter ≡ length hist) (h : Holds cv conf silence hist f.curbuf f n) where
    abbrev g : Filter cv
    g = take_input cv conf n raw f

    abbrev x : Buffer cv
    x = spectrum cv conf silence n hist raw

    -- The new block is stored at the current index.
    pub stored_now : g.cbuf n (length hist % conf.n_blocks) ≡ x
    unfolding take_input
    stored_now = rw (update_self, h.front, counter, update_self)

    pub curblock-take_input : g.curblock ≡ length hist % conf.n_blocks
    unfolding take_input
    curblock-take_input = rw counter

    stored_before : (k : ℕ) → k ≢ length hist % conf.n_blocks → g.cbuf n k ≡ f.cbuf n k
    unfolding take_input
    stored_before k ne = rw (update_self, counter) (update_ne _ _ k _ ne)

    front_now :
        take cv.n_fft2 (g.input_timecbuf n (not f.curbuf)) ≡ cv.raw2real (conf.inputs n).bf raw
    unfolding take_input raw2cbuf
    front_now = rw (update_self, both-not) (take-append _ _ _ (law.length-raw2real _ _))

    processed_now : g.procblocks n ≡ min (suc (length hist)) conf.n_blocks
    unfolding take_input
    processed_now = rw update_self (ground (arith, h.processed))

    stored_all :
        1 < conf.n_blocks
        → (j : ℕ) → j < min (suc (length hist)) conf.n_blocks
        → get_elem? (spectra cv conf silence n (raw ∷ hist)) j
          ≡ some (g.cbuf n ((length hist - j) % conf.n_blocks))
    stored_all many zero below =
        let now : length hist - 0 ≡ length hist = omega arith in rw now (ap some (sym stored_now))
    stored_all many (suc j) below =
        let older : length hist - suc j ≡ length hist - 1 - j = omega arith in
        h.stored many j (omega arith)
        ∙ rw (← older) (
            ap some (
              sym (
                stored_before _ (
                  sub-mod-ne (length hist) (suc j) conf.n_blocks (omega arith) (omega arith)
                    (omega arith)))))

    -- The channel holds the history with the new block.
    pub take_input-Holds : Holds cv conf silence (raw ∷ hist) (not f.curbuf) g n
    take_input-Holds = record {
      front = front_now;
      processed = processed_now;
      stored = λ many j below.
          let age : suc (length hist) - 1 - j ≡ length hist - j = omega arith in
          rw age (stored_all many j below);
    }
