-- ===== src/Brutefir/Sample/Tests.antt =====
-- Tests of the models of brutefir/raw2real.cpp, brutefir/real2raw.cpp and brutefir/dither.cpp, and the
-- theorems about them at concrete inputs. A "float" is a number of halves.
use foo_dsp_bfir.Base.{
  ℕ, ◌^◌, ◌<◌, ◌≡◌, ◌↔◌, refl, inl, arith, pos, negsuc, true, false, if◌then◌else◌, none, eq_ℤ,
}
use foo_dsp_bfir.Brutefir.Examples.{integers}
use foo_dsp_bfir.Brutefir.Config.{no_overflow, to_int32}
use foo_dsp_bfir.Brutefir.Sample.Bytes.{word_of}
use foo_dsp_bfir.Brutefir.Sample.Quantize.{map_index, real2int_no_dither, real2int_hp_tpdf}
use foo_dsp_bfir.Brutefir.Sample.Real2Raw.{int_min, int_max}
use foo_dsp_bfir.Brutefir.Sample.Convert.{read_raw, write_raw}
use foo_dsp_bfir.Brutefir.Sample.Whole.{Fits, real2int_no_dither_lem}
use foo_dsp_bfir.Brutefir.Sample.Integers.{IsCopied}
use foo_dsp_bfir.Brutefir.Sample.RoundTrip.{write_raw-read_raw}
use foo_dsp_bfir.Brutefir.Sample.FloatTrip.{write_raw-read_raw_float}
use foo_dsp_bfir.Brutefir.Sample.Range.{AroundZero, IsQuantized, real2int-IsQuantized}
use foo_dsp_bfir.Brutefir.Sample.Dither.{fill_randtab, tausinit, map_entry, dither_with}
use foo_dsp_bfir.Brutefir.Sample.Map.{created-map_entry}
use foo_dsp_bfir.Brutefir.Sample.Machine.{Machine, convert}
use foo_dsp_bfir.Brutefir.Sample.Examples.{
  halves, halves-RepresentsInts, halves-CutsTowardsZero, be16, swapped_float, bytes_up,
  bytes_up-IsBytes, zeros, no_samples, state, alternating, doubled,
}

write_raw-read_raw_example :
    IsCopied 2 2 2 3 bytes_up zeros
      (write_raw halves 3 be16 alternating false
        (read_raw halves 3 be16 bytes_up no_samples)
        (zeros, no_overflow integers, state)).0.0
write_raw-read_raw_example =
    write_raw-read_raw halves 3 be16 alternating bytes_up no_samples
      (zeros, no_overflow integers, state)
      (record {
        size_lo = omega arith;
        size_hi = omega arith;
        no_padding = refl;
        not_float = refl;
        spaced = omega arith;
      })
      (halves-RepresentsInts 16) bytes_up-IsBytes

word_of-to_int32_id : (w : ℕ) → w < 2 ^ 32 → word_of (to_int32 w) ≡ w
unfolding word_of to_int32
word_of-to_int32_id w h = ground arith

write_raw-read_raw_float_example :
    IsCopied 4 4 2 3 bytes_up zeros
      (write_raw halves 3 swapped_float alternating true
        (read_raw halves 3 swapped_float bytes_up no_samples)
        (zeros, no_overflow integers, state)).0.0
write_raw-read_raw_float_example =
    write_raw-read_raw_float halves 3 swapped_float alternating true bytes_up no_samples
      (zeros, no_overflow integers, state)
      (record { known_size = inl refl; no_padding = refl; is_float = refl })
      (record { keeps32 = λ e w h. word_of-to_int32_id w h; keeps64 = λ e w h. refl })
      bytes_up-IsBytes

int_max_16 : int_max 16 ≡ pos 32767
unfolding int_max to_int32
int_max_16 = refl

int_min_16 : int_min 16 ≡ negsuc 32767
unfolding int_min to_int32
int_min_16 = refl

around_16 : AroundZero 16
around_16 = rw (int_min_16, int_max_16) (omega arith)

Fits-16 : Fits 16 (pos 32767)
Fits-16 = rw (int_min_16, int_max_16) (omega arith)

real2int_no_dither_lem_example :
    ((real2int_no_dither halves
        (pos 65534)
        (doubled (int_min 16))
        (doubled (int_max 16))
        (int_min 16)
        (int_max 16)
        (no_overflow integers)).0
      ≡ pos 32767)
    × ((real2int_no_dither halves
          (pos 65534)
          (doubled (int_min 16))
          (doubled (int_max 16))
          (int_min 16)
          (int_max 16)
          (no_overflow integers)).1.n_overflows
        ≡ (if eq_ℤ (pos 32767) (int_max 16) then 1 else 0))
real2int_no_dither_lem_example =
    real2int_no_dither_lem halves 16 (halves-RepresentsInts 16) (pos 32767) (no_overflow integers)
      around_16.1 Fits-16

real2int-IsQuantized_example :
    let v =
      halves.add
        (halves.add (pos 99999) (halves.sub state.s0 state.s1))
        (alternating.randmap (map_index halves alternating state 3)) in
    let r =
      (real2int_hp_tpdf halves alternating
        (pos 99999)
        (doubled (int_min 16))
        (doubled (int_max 16))
        (int_min 16)
        (int_max 16)
        (no_overflow integers)
        state
        3).0 in
    let r' =
      (real2int_no_dither halves
        (pos 99999)
        (doubled (int_min 16))
        (doubled (int_max 16))
        (int_min 16)
        (int_max 16)
        (no_overflow integers)).0 in
    Fits 16 r
    × IsQuantized halves (λ v. Unit) 16 around_16 (halves-CutsTowardsZero 16) v r
    × Fits 16 r'
    × IsQuantized halves
        (λ v. Unit)
        16
        around_16
        (halves-CutsTowardsZero 16)
        (halves.add_half (pos 99999))
        r'
real2int-IsQuantized_example =
    real2int-IsQuantized halves (λ v. Unit) 16 around_16 (halves-CutsTowardsZero 16) alternating
      (pos 99999) (no_overflow integers) state 3 tt tt

created-map_entry_example :
    (map_entry halves (
        map_index halves
          (record {
            randtab = fill_randtab 9 0 (tausinit 0) (λ n. pos 0);
            randtab_size = 9;
            randmap = λ k. k;
          })
          state
          3)
      ≡ none)
    ↔ ((fill_randtab 9 0 (tausinit 0) (λ n. pos 0) 4 ≡ pos 127)
        × (fill_randtab 9 0 (tausinit 0) (λ n. pos 0) 3 ≡ negsuc 127))
created-map_entry_example =
    created-map_entry halves 9 (tausinit 0) (λ n. pos 0) (λ k. k) state 3 (omega arith)
      (omega arith)

-- 127 after -128 has no entry.
overrun : map_entry halves (map_index halves alternating state 2) ≡ none
unfolding map_entry map_index
overrun = refl

-- A dither for two channels, and the first buffer of the first one.
abbrev start : Machine halves
start =
    let made = dither_with halves 2 (λ n. pos 0) (λ k. k) (λ n. state) 10 in
    record { d = made.0; states = made.1 }

-- The second channel, with dither, between two buffers of the first.
abbrev first_read : Machine halves
first_read = convert halves 3 2 start 0 be16 true no_samples zeros (no_overflow integers)

abbrev second_read : Machine halves
second_read = convert halves 3 2 first_read 1 be16 true no_samples zeros (no_overflow integers)
