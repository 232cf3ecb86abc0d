-- ===== src/Brutefir/Sample/Quantize.antt =====
-- brutefir/dither.cpp: the four functions that turn a real sample into an integer. Those for `float`
-- and for `double` are one function of the "float" type. An `int32_t` that leaves its range wraps.
use foo_dsp_bfir.Base.{ℕ, ◌+◌, ◌-◌, ◌%◌, ◌^◌, ℤ, pos, ltb_ℤ, ◌-ℤ◌, if◌then◌else◌}
use foo_dsp_bfir.Brutefir.Real.{Real}
use foo_dsp_bfir.Brutefir.Config.{Overflow, to_int32}
use foo_dsp_bfir.Brutefir.Sample.Bytes.{word_of}
use foo_dsp_bfir.Brutefir.Sample.Precision.{Precision}

-- `-k` and `k - 1`
unfoldable pub neg_int32 : ℤ → ℤ
unfolding word_of to_int32
neg_int32 k = to_int32 (2 ^ 32 - word_of k)

unfoldable pub dec_int32 : ℤ → ℤ
unfolding word_of to_int32
dec_int32 k = to_int32 (word_of k + 2 ^ 32 - 1)

module _ {R : Real} (P : Precision R) where
  open P use {Value, lt, le, add, sub, neg, of_int, trunc, add_half, widen, lt_double, neg_double}

  -- `struct dither_state_t`, with `sf` or `sd`; `randtab` is the offset of that pointer in the table.
  pub record DitherState : Type 0 where
    pub randtab_ptr : ℕ
    pub randtab : ℕ
    pub s0 : Value
    pub s1 : Value

  -- What the functions read of the class: the table of random numbers with its size, and the map.
  pub record Dither : Type 0 where
    pub randtab : ℕ → ℤ
    pub randtab_size : ℕ
    pub randmap : ℤ → Value

  unfoldable pub count_overflow : Overflow R → Overflow R
  count_overflow o = record o { n_overflows = (o.n_overflows + 1) % 2 ^ 32 }

  unfoldable pub lower_intlargest : ℤ → Overflow R → Overflow R
  unfolding neg_int32
  lower_intlargest sample o =
      if ltb_ℤ sample (neg_int32 o.intlargest)
      then record o { intlargest = neg_int32 sample }
      else o

  unfoldable pub raise_intlargest : ℤ → Overflow R → Overflow R
  raise_intlargest sample o =
      if ltb_ℤ o.intlargest sample then record o { intlargest = sample } else o

  -- The branches of both functions: `real_sample` is compared with `largest`, and `dithered_sample`,
  -- the same value in the function without dither, is cut.
  unfoldable pub quantize : Value → Value → Value → Value → ℤ → ℤ → Overflow R → ℤ × Overflow R
  unfolding count_overflow lower_intlargest raise_intlargest dec_int32
  quantize real_sample dithered_sample rmin rmax imin imax o =
      if lt dithered_sample (of_int (pos 0))
      then if le dithered_sample rmin
        then (
          imin,
          (let counted = count_overflow o in
              if lt_double (widen real_sample) (neg_double o.largest)
              then record counted { largest = widen (neg dithered_sample) }
              else counted),
        )
        else (let sample = dec_int32 (trunc dithered_sample) in (sample, lower_intlargest sample o))
      else if lt rmax dithered_sample
      then (
        imax,
        (let counted = count_overflow o in
            if lt_double o.largest (widen real_sample)
            then record counted { largest = widen dithered_sample }
            else counted),
      )
      else (let sample = trunc dithered_sample in (sample, raise_intlargest sample o))

  -- `ditherf_real2int_no_dither` and `ditherd_real2int_no_dither`
  unfoldable pub real2int_no_dither : Value → Value → Value → ℤ → ℤ → Overflow R → ℤ × Overflow R
  unfolding quantize
  real2int_no_dither real_sample rmin rmax imin imax o =
      let shifted = add_half real_sample in quantize shifted shifted rmin rmax imin imax o

  -- The index into the map: the difference of two neighbours in the table.
  unfoldable pub map_index : Dither → DitherState → ℕ → ℤ
  map_index d st loop_counter =
      d.randtab (st.randtab + loop_counter) -ℤ d.randtab (st.randtab + loop_counter - 1)

  -- `ditherf_real2int_hp_tpdf` and `ditherd_real2int_hp_tpdf`
  unfoldable pub real2int_hp_tpdf :
      Dither
      → Value
      → Value
      → Value
      → ℤ
      → ℤ
      → Overflow R
      → DitherState
      → ℕ
      → ℤ × Overflow R × DitherState
  unfolding quantize map_index
  real2int_hp_tpdf d sample0 rmin rmax imin imax o st loop_counter =
      let real_sample = add sample0 (sub st.s0 st.s1) in
      let dithered_sample = add real_sample (d.randmap (map_index d st loop_counter)) in
      let (sample, o') = quantize real_sample dithered_sample rmin rmax imin imax o in
      (sample, o', record st { s0 = sub real_sample (of_int sample); s1 = st.s0 })
