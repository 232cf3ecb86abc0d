-- ===== src/Brutefir/Filter.antt =====
-- brutefir/brutefir.cpp: the buffers of the class `brutefir`, and `run`, which convolves a block of
-- every channel. The arrays over the channels and over the blocks are functions of the index.
use foo_dsp_bfir.Base.{
  ℕ, zero, suc, ◌+◌, ◌-◌, ◌%◌, ◌^◌, Bool, true, false, not, Option, none, some, List, get_elem?,
  ltb, ◌==◌, if◌then◌else◌, update, pos,
}
use foo_dsp_bfir.Brutefir.Real.{Real}
use foo_dsp_bfir.Brutefir.Config.{max_channels, Channel, Overflow}
use foo_dsp_bfir.Brutefir.Convolver.{Convolver, raw2cbuf}

-- `(blockcounter - i) % n_blocks` on `unsigned int`
unfoldable pub block_index : ℕ → ℕ → ℕ → ℕ
block_index counter i n_blocks = (counter + 2 ^ 32 - i) % 2 ^ 32 % n_blocks

module _ {R : Real} (cv : Convolver R) where
  open cv use {Sample, Raw, DitherState}

  abbrev pub Buffer : Type 0
  Buffer = List Sample

  -- `struct bfcoeff_t`: `data` is `none` for NULL, and so is an entry of its array.
  pub record Coeff : Type 0 where
    pub n_blocks : ℕ
    pub blocks : Option (List (Option Buffer))

  -- What `run` reads of the configuration.
  pub record Conf : Type 0 where
    pub n_channels : ℕ
    pub n_blocks : ℕ
    pub inputs : ℕ → Channel R
    pub outputs : ℕ → Channel R
    pub coeffs : ℕ → Coeff

  -- What `run` reads and writes. `curbuf` is 0 or 1.
  pub record Filter : Type 0 where
    pub curbuf : Bool
    pub curblock : ℕ
    pub blockcounter : ℕ
    pub procblocks : ℕ → ℕ
    pub input_timecbuf : ℕ → Bool → Buffer
    pub input_freqcbuf : ℕ → Buffer
    pub output_freqcbuf : ℕ → Buffer
    pub cbuf : ℕ → ℕ → Buffer
    pub ocbuf : ℕ → Buffer
    pub overflow : ℕ → Overflow R
    pub last_overflow : ℕ → Overflow R
    pub dither_state : ℕ → DitherState

  -- `fault` is a read through a NULL pointer or out of range, `aborted` the return value -1.
  pub data Outcome : Type 0 where
    done aborted : Filter → Raw → Outcome
    fault : Outcome

  -- `coeffs[n].data[i]`
  unfoldable pub coeff_block : Coeff → ℕ → Option Buffer
  coeff_block c i = elim c.blocks [
    | none ↦ none
    | some bs ↦ elim (get_elem? bs i) [ none ↦ none | some b ↦ b ]
  ]

  -- The two buffers of a channel, `a` at the index `b` and the other one at `!b`.
  unfoldable pub both : Bool → Buffer → Buffer → Bool → Buffer
  both true a other true = a
  both true a other false = other
  both false a other true = other
  both false a other false = a

  -- A write to `ocbuf[n]`. With one block `cbuf[n][0]` is the same memory.
  unfoldable pub store_ocbuf : Conf → ℕ → Buffer → Filter → Filter
  store_ocbuf conf n v f = record f {
    ocbuf = update f.ocbuf n v;
    cbuf = if conf.n_blocks == 1 then update f.cbuf n (update (f.cbuf n) 0 v) else f.cbuf;
  }

  -- A write to `cbuf[n][i]`, likewise.
  unfoldable pub store_cbuf : Conf → ℕ → ℕ → Buffer → Filter → Filter
  store_cbuf conf n i v f = record f {
    cbuf = update f.cbuf n (update (f.cbuf n) i v);
    ocbuf = if conf.n_blocks == 1 then update f.ocbuf n v else f.ocbuf;
  }

  -- The input side of the loop body: conversion, transform, and the block's place in `cbuf`.
  unfoldable pub take_input : Conf → ℕ → Raw → Filter → Filter
  unfolding both raw2cbuf store_cbuf
  take_input conf n inbuf f =
      let ch = conf.inputs n in
      let (cur, next) =
        raw2cbuf cv ch.bf inbuf (f.input_timecbuf n f.curbuf) (f.input_timecbuf n (not f.curbuf)) in
      let freq = cv.fft cur in
      let procblocks = f.procblocks n in
      let curblock = f.blockcounter % conf.n_blocks in
      store_cbuf conf n curblock (cv.mix_input ch.bf.sf.scale freq) (record f {
        input_timecbuf = update f.input_timecbuf n (both f.curbuf cur next);
        input_freqcbuf = update f.input_freqcbuf n freq;
        procblocks =
            update f.procblocks n
              (if ltb procblocks conf.n_blocks then procblocks + 1 else procblocks);
        curblock = curblock;
      })

  -- The loop over the earlier blocks, `left` of them to go from the index `i` on.
  unfoldable pub add_blocks : Conf → ℕ → Filter → ℕ → ℕ → Buffer → Option Buffer
  add_blocks conf n f zero i out = some out
  add_blocks conf n f (suc left) i out =
      let step : Option Buffer = elim (coeff_block (conf.coeffs n) i) [
        | none ↦ none
        | some h ↦
            add_blocks conf n f left (i + 1)
              (cv.convolve_add (f.cbuf n (block_index f.blockcounter i conf.n_blocks)) h out)
      ] in
      if ltb i (f.procblocks n) then step else some out

  -- The convolution of the channel's blocks, as it stands in `ocbuf[n]` afterwards.
  unfoldable pub convolved : Conf → ℕ → Filter → Option Buffer
  convolved conf n f = elim (coeff_block (conf.coeffs n) 0) [
    | none ↦ none
    | some h ↦
        if conf.n_blocks == 1
        then some (cv.convolve_inplace (f.cbuf n 0) h)
        else add_blocks conf n f ((conf.coeffs n).n_blocks - 1) 1
            (cv.convolve (f.cbuf n f.curblock) h)
  ]

  -- The output side: mixing, the inverse transform into `ocbuf[0]`, the test for NaN and Inf
  -- values, and the conversion into the output buffer.
  unfoldable pub give_output : Conf → ℕ → Buffer → Raw → Filter → Bool × Filter × Raw
  unfolding store_ocbuf
  give_output conf n out outbuf f0 =
      let f1 = store_ocbuf conf n out f0 in
      let ch = conf.outputs n in
      let mixed = cv.mix_output ch.bf.sf.scale (f1.ocbuf n) in
      let f2 = record f1 { output_freqcbuf = update f1.output_freqcbuf n mixed } in
      let f3 = store_ocbuf conf 0 (cv.ifft mixed) f2 in
      let (raw, of, ds) =
        cv.real2raw ch.bf ch.apply_dither (f3.ocbuf 0) outbuf (f3.overflow n) (f3.dither_state n) in
      let f4 = record f3 {
        overflow = update f3.overflow n of;
        dither_state = update f3.dither_state n ds;
      } in
      if cv.is_finite (f3.ocbuf 0) then (true, f4, raw) else (false, f3, outbuf)

  -- The loop over the channels, `left` of them to go from `n` on; the test ends it early.
  unfoldable pub run_channels : Conf → ℕ → ℕ → Raw → Raw → Filter → Outcome
  run_channels conf zero n inbuf outbuf f = done f outbuf
  run_channels conf (suc left) n inbuf outbuf f =
      let f' = take_input conf n inbuf f in
      elim (convolved conf n f') [
        | none ↦ fault
        | some out ↦
            let (finite, f'', raw) = give_output conf n out outbuf f' in
            elim finite [
              | true ↦ run_channels conf left (n + 1) inbuf raw f''
              | false ↦ aborted f'' raw
            ]
      ]

  -- The end of `run`: the buffers are swapped and the block counter, an `unsigned int`, advances.
  unfoldable pub advance : Outcome → Outcome
  advance (done f raw) =
      done (record f { curbuf = not f.curbuf; blockcounter = (f.blockcounter + 1) % 2 ^ 32 }) raw
  advance (aborted f raw) = aborted f raw
  advance fault = fault

  unfoldable pub run : Conf → Raw → Raw → Filter → Outcome
  unfolding advance
  run conf inbuf outbuf f = advance (run_channels conf conf.n_channels 0 inbuf outbuf f)

  -- An overflow entry as `reset` leaves it; `max` stays.
  abbrev pub reset_overflow : Overflow R → Overflow R
  reset_overflow o = record o { n_overflows = 0; largest = R.of_int (pos 0); intlargest = pos 0 }

  -- the loop of `reset`
  unfoldable pub reset_channels : ℕ → ℕ → Filter → Filter
  reset_channels zero n f = f
  reset_channels (suc left) n f = reset_channels left (n + 1) (record f {
    overflow = update f.overflow n (reset_overflow (f.overflow n));
    last_overflow = update f.last_overflow n (reset_overflow (f.last_overflow n));
  })

  unfoldable pub reset : Conf → Filter → Filter
  reset conf f = record (reset_channels conf.n_channels 0 f) {
    procblocks = λ n. if ltb n max_channels then 0 else f.procblocks n;
    curbuf = false;
    curblock = 0;
    blockcounter = 0;
  }

  -- `for (; n < n_channels; n++) last_overflow[n] = overflow[n];`
  unfoldable pub copy_overflows : ℕ → ℕ → Filter → Filter
  copy_overflows zero n f = f
  copy_overflows (suc left) n f =
      copy_overflows left (n + 1)
        (record f { last_overflow = update f.last_overflow n (f.overflow n) })

  -- The loop of `check_overflows`, over a test `same` for `memcmp(...) == 0`. The result tells
  -- whether `print_overflows` is called.
  unfoldable pub check_channels : (Overflow R → Overflow R → Bool) → ℕ → ℕ → Filter → Filter × Bool
  check_channels same zero n f = (f, false)
  check_channels same (suc left) n f =
      let rest = check_channels same left (n + 1) f in
      if same (f.overflow n) (f.last_overflow n)
      then rest
      else (copy_overflows (suc left) n f, true)

  unfoldable pub check_overflows : (Overflow R → Overflow R → Bool) → Conf → Filter → Filter × Bool
  check_overflows same conf f = check_channels same conf.n_channels 0 f
