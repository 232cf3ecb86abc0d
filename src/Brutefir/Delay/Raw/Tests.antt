-- ===== src/Brutefir/Delay/Raw/Tests.antt =====
-- Tests of the delay on memory, and the theorems about it at concrete buffers.
use foo_dsp_bfir.Base.{ℕ, ◌%◌, ◌≡◌, refl, arith, pos, some, none}
use foo_dsp_bfir.Brutefir.Sample.Bytes.{Memory}
use foo_dsp_bfir.Brutefir.Sample.Words.{IsBytes}
use foo_dsp_bfir.Brutefir.Delay.{update_delay}
use foo_dsp_bfir.Brutefir.Delay.Raw.{RawBuffer, update_raw, update_raw_target}
use foo_dsp_bfir.Brutefir.Delay.Raw.Samples.{samples}
use foo_dsp_bfir.Brutefir.Delay.Raw.Parts.{buffer_of, IsRaw}
use foo_dsp_bfir.Brutefir.Delay.Raw.Update.{silence}
use foo_dsp_bfir.Brutefir.Delay.Raw.Whole.{Outside, update_raw-Refines, update_raw_target-Refines}
use foo_dsp_bfir.Brutefir.Delay.Raw.Endless.{update_raw-none}

abbrev bytes_up : Memory
bytes_up j = j % 256

abbrev nines : Memory
nines j = 9

-- A delay of 3 in fragments of 2, as two full-sized buffers and one sample.
abbrev raw_3 : RawBuffer
raw_3 = record {
  fragsize = 2;
  maxdelay = pos 5;
  curdelay = 3;
  curbuf = 0;
  n_fbufs = 2;
  fbufs = λ i. nines;
  n_rest = 1;
  rbuf = nines;
  shortbuf = λ i. nines;
}

raw_3-IsRaw : IsRaw raw_3
raw_3-IsRaw = record {
  full = λ i j. omega arith;
  rest = λ j. omega arith;
  short = λ i j. omega arith;
  fits = omega arith;
}

bytes_up-IsBytes : IsBytes bytes_up
bytes_up-IsBytes j = omega arith

-- The second of two channels of 16 bits.
update_raw-Refines_example :
    (r : RawBuffer × Memory) × (update_raw 0 raw_3 2 2 1 bytes_up 2 ≡ some r)
    × ((buffer_of 2 r.0, samples 2 2 2 2 r.1)
        ≡ update_delay (silence 2) 1 (buffer_of 2 raw_3) (samples 2 2 2 2 bytes_up))
    × ((j : ℕ) → Outside 2 2 2 2 j → r.1 j ≡ bytes_up j)
update_raw-Refines_example =
    update_raw-Refines 2 refl 2 2 0 1 raw_3 bytes_up (omega arith) (omega arith) raw_3-IsRaw
      bytes_up-IsBytes

update_raw_target-Refines_example :
    (r : RawBuffer × Memory) × (update_raw_target 0 raw_3 2 2 3 bytes_up 2 nines ≡ some r)
    × ((buffer_of 2 r.0, samples 2 1 0 2 r.1)
        ≡ update_delay (silence 2) 3 (buffer_of 2 raw_3) (samples 2 2 2 2 bytes_up))
update_raw_target-Refines_example =
    update_raw_target-Refines 2 refl 2 2 0 3 raw_3 bytes_up nines (omega arith) (omega arith)
      raw_3-IsRaw bytes_up-IsBytes (λ j. omega arith)

update_raw-none_example :
    (update_raw 1000 raw_3 3 1 1 bytes_up 0 ≡ none)
    × (update_raw_target 1000 raw_3 3 2 1 bytes_up 0 nines ≡ none)
update_raw-none_example =
    update_raw-none 1000 2 0 1 raw_3 bytes_up nines refl refl (omega arith) (omega arith)
