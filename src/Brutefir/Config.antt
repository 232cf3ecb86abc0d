-- ===== src/Brutefir/Config.antt =====
-- brutefir/brutefir.cpp, the channel configuration: `get_full_scale`, `get_normalized_scale`,
-- `get_max`, `setup_sample_format`, `setup_input`, `setup_output` and `init_channels`, over the
-- structures of brutefir/global.h. The arrays of BF_MAXCHANNELS entries are functions of the index.
pub mod Formats
pub mod Layout
mod Tests
use foo_dsp_bfir.Base.{
  ℕ, zero, suc, ◌+◌, ◌-◌, ◌*◌, ◌%◌, ◌^◌, ℤ, pos, negsuc, Bool, true, false, Option, none, some, ltb,
  if◌then◌else◌, update,
}
use foo_dsp_bfir.Brutefir.Real.{Real}

-- `BF_MAXCHANNELS`
abbrev pub max_channels : ℕ
max_channels = 8

-- The `BF_SAMPLE_FORMAT_*` codes, and any other code.
pub data Format : Type 0 where
  s8 s16_le s16_be s24_le s24_be s32_le s32_be float_le float_be float64_le float64_be : Format
  unknown : ℕ → Format

-- An `int` that holds the low 32 bits of a number, in two's complement.
unfoldable pub to_int32 : ℕ → ℤ
to_int32 n = let w = n % 2 ^ 32 in if ltb w (2 ^ 31) then pos w else negsuc (2 ^ 32 - 1 - w)

module _ (R : Real) where
  open R use {Double, of_int, reciprocal, pred}

  -- `(double)(1 << ((bytes << 3) - 1))`, the shift on `int`.
  unfoldable pub get_full_scale : ℕ → Double
  get_full_scale bytes = of_int (to_int32 (2 ^ (bytes * 8 - 1)))

  unfoldable pub get_normalized_scale : ℕ → Double
  get_normalized_scale bytes = reciprocal (get_full_scale bytes)

  unfoldable pub get_max : ℕ → Double
  get_max bytes = pred (get_full_scale bytes)

  -- `struct sample_format_t`
  pub record SampleFormat : Type 0 where
    pub isfloat : Bool
    pub swap : Bool
    pub bytes : ℕ
    pub sbytes : ℕ
    pub scale : Double
    pub format : Format

  -- the assignments of an integer case of the switch
  int_format : SampleFormat → ℕ → Bool → Bool → SampleFormat
  int_format sf n swapped normalized = record sf {
    bytes = n;
    sbytes = n;
    isfloat = false;
    swap = swapped;
    scale = if normalized then get_normalized_scale n else get_full_scale n;
  }

  -- the assignments of a floating point case of the switch
  float_format : SampleFormat → ℕ → Bool → SampleFormat
  float_format sf n swapped = record sf {
    bytes = n;
    sbytes = n;
    isfloat = true;
    swap = swapped;
    scale = of_int (pos 1);
  }

  switch_format : Format → SampleFormat → Bool → SampleFormat
  switch_format s8 sf normalized = int_format sf 1 false normalized
  switch_format s16_le sf normalized = int_format sf 2 false normalized
  switch_format s16_be sf normalized = int_format sf 2 true normalized
  switch_format s24_le sf normalized = int_format sf 3 false normalized
  switch_format s24_be sf normalized = int_format sf 3 true normalized
  switch_format s32_le sf normalized = int_format sf 4 false normalized
  switch_format s32_be sf normalized = int_format sf 4 true normalized
  switch_format float_le sf normalized = float_format sf 4 false
  switch_format float_be sf normalized = float_format sf 4 true
  switch_format float64_le sf normalized = float_format sf 8 false
  switch_format float64_be sf normalized = float_format sf 8 true
  switch_format (unknown code) sf normalized = sf

  unfoldable pub setup_sample_format : Format → SampleFormat → Bool → SampleFormat
  unfolding int_format float_format switch_format
  setup_sample_format f sf normalized = switch_format f (record sf { format = f }) normalized

  -- `struct buffer_format_t`
  pub record BufferFormat : Type 0 where
    pub sf : SampleFormat
    pub sample_spacing : ℕ
    pub byte_offset : ℕ

  -- `struct bfchannel_t`
  pub record Channel : Type 0 where
    pub intname : ℕ
    pub bf : BufferFormat
    pub apply_dither : Bool

  -- `struct bfoverflow_t`
  pub record Overflow : Type 0 where
    pub n_overflows : ℕ
    pub intlargest : ℤ
    pub largest : Double
    pub max : Double

  -- The channel part of `struct bfconf_t`, with the two overflow arrays of the class.
  pub record Channels : Type 0 where
    pub sampling_rate : ℕ
    pub n_channels : ℕ
    pub inputs : ℕ → Channel
    pub outputs : ℕ → Channel
    pub overflow : ℕ → Overflow
    pub last_overflow : ℕ → Overflow

  -- An input channel as `setup_input` leaves it.
  unfoldable pub input_channel : ℕ → ℕ → Format → Channel → Channel
  unfolding setup_sample_format
  input_channel n_channels index f old =
      let sf = setup_sample_format f old.bf.sf true in
      record old {
        intname = index;
        bf = record { sf = sf; byte_offset = index * sf.bytes; sample_spacing = n_channels };
      }

  unfoldable pub setup_input : Channels → ℕ → Format → Channels
  setup_input c index f = record c {
    inputs = update c.inputs index (input_channel c.n_channels index f (c.inputs index));
  }

  -- An output channel as `setup_output` leaves it.
  unfoldable pub output_channel : ℕ → ℕ → Format → Bool → Channel → Channel
  unfolding setup_sample_format
  output_channel n_channels index f dithered old =
      let sf = setup_sample_format f old.bf.sf false in
      record {
        intname = index;
        apply_dither = dithered;
        bf = record { sf = sf; byte_offset = index * sf.bytes; sample_spacing = n_channels };
      }

  unfoldable pub setup_output : Channels → ℕ → Format → Bool → Channels
  setup_output c index f dithered = record c {
    outputs =
        update c.outputs index (output_channel c.n_channels index f dithered (c.outputs index));
  }

  -- The first loop of `init_channels`, with `left` channels to go from `n` on.
  pub setup_channels : ℕ → ℕ → Channels → Format → Format → Bool → Channels
  setup_channels zero n c in_format out_format dithered = c
  setup_channels (suc left) n c in_format out_format dithered =
      setup_channels left (n + 1) (setup_output (setup_input c n in_format) n out_format dithered)
        in_format out_format dithered

  -- an entry of the overflow arrays after the two `memset` calls
  abbrev pub no_overflow : Overflow
  no_overflow = record {
    n_overflows = 0;
    intlargest = pos 0;
    largest = of_int (pos 0);
    max = of_int (pos 0);
  }

  -- `max` of a channel's overflow entries, from its output format
  unfoldable pub overflow_max : Channel → Double
  overflow_max ch = if ch.bf.sf.isfloat then of_int (pos 1) else get_max ch.bf.sf.bytes

  -- The `memset` calls and the second loop.
  pub setup_overflow : ℕ → ℕ → Channels → Channels
  setup_overflow zero n c = c
  setup_overflow (suc left) n c =
      let entry = record no_overflow { max = overflow_max (c.outputs n) } in
      setup_overflow left (n + 1) (record c {
        overflow = update c.overflow n entry;
        last_overflow = update c.last_overflow n entry;
      })

  -- The channels and the return value.
  pub init_channels : Channels → ℕ → Format → Format → ℕ → Bool → Channels × ℤ
  init_channels c n in_format out_format rate dithered =
      if ltb max_channels n
      then (c, negsuc 0)
      else (let sized = record c { sampling_rate = rate; n_channels = n } in
          (setup_overflow n 0 (setup_channels n 0 sized in_format out_format dithered), pos 0))
