-- ===== src/Brutefir/Examples.antt =====
-- Data for the tests of the models of brutefir/: integers in place of `double`, and a convolver
-- on two samples that multiplies them one by one.
use foo_dsp_bfir.Base.{
  ℕ, suc, ◌+◌, ◌*◌, ℤ, pos, true, false, refl, Option, none, some, List, [], ◌∷◌, ◌++◌, get_elem?,
}
use foo_dsp_bfir.Brutefir.Real.{Real}
use foo_dsp_bfir.Brutefir.Config.{s16_le, SampleFormat, Channel, Channels, no_overflow}
use foo_dsp_bfir.Brutefir.Convolver.{Convolver, IsLawful}
use foo_dsp_bfir.Brutefir.Filter.{Conf, Filter}

abbrev pub integers : Real
integers = record { Double = ℤ; of_int = λ z. z; reciprocal = λ z. z; pred = λ z. z }

abbrev sample_or_zero : Option ℕ → ℕ
sample_or_zero none = 0
sample_or_zero (some x) = x

abbrev pub products : List ℕ → List ℕ → List ℕ
products [] ys = []
products (x ∷ xs) [] = []
products (x ∷ xs) (y ∷ ys) = (x * y) ∷ products xs ys

abbrev pub sums : List ℕ → List ℕ → List ℕ
sums [] ys = []
sums (x ∷ xs) [] = []
sums (x ∷ xs) (y ∷ ys) = (x + y) ∷ sums xs ys

abbrev pub pairs : Convolver integers
pairs = record {
  Sample = ℕ;
  Raw = List ℕ;
  DitherState = ℕ;
  n_fft2 = 2;
  raw2real = λ bf raw. sample_or_zero (get_elem? raw 0) ∷ sample_or_zero (get_elem? raw 1) ∷ [];
  real2raw = λ bf dithered xs raw of ds. (raw ++ xs, of, suc ds);
  fft = λ xs. xs;
  ifft = λ xs. xs;
  mix_input = λ s xs. xs;
  mix_output = λ s xs. xs;
  convolve = products;
  convolve_inplace = products;
  convolve_add = λ x h out. sums out (products x h);
  is_finite = λ xs. true;
  zero_sample = 0;
  scaled = λ s x. x;
  finite = λ x. true;
}

abbrev pub pairs-IsLawful : IsLawful pairs
pairs-IsLawful = record { length-raw2real = λ bf raw. refl; inplace = λ x h. refl }

abbrev pub some_format : SampleFormat integers
some_format = record {
  isfloat = false;
  swap = false;
  bytes = 2;
  sbytes = 2;
  scale = pos 1;
  format = s16_le;
}

abbrev pub some_channel : Channel integers
some_channel = record {
  intname = 0;
  bf = record { sf = some_format; sample_spacing = 1; byte_offset = 0 };
  apply_dither = false;
}

abbrev pub two_channels : Channels integers
two_channels = record {
  sampling_rate = 0;
  n_channels = 0;
  inputs = λ n. some_channel;
  outputs = λ n. some_channel;
  overflow = λ n. no_overflow integers;
  last_overflow = λ n. no_overflow integers;
}

-- One channel with two coefficient blocks, of a filter with two blocks.
abbrev pub two_blocks : List (List ℕ)
two_blocks = (1 ∷ 2 ∷ 3 ∷ 4 ∷ []) ∷ (5 ∷ 6 ∷ 7 ∷ 8 ∷ []) ∷ []

abbrev pub one_channel : Conf pairs
one_channel = record {
  n_channels = 1;
  n_blocks = 2;
  inputs = λ n. some_channel;
  outputs = λ n. some_channel;
  coeffs = λ n. record {
    n_blocks = 2;
    blocks = some (some (1 ∷ 2 ∷ 3 ∷ 4 ∷ []) ∷ some (5 ∷ 6 ∷ 7 ∷ 8 ∷ []) ∷ []);
  };
}

abbrev pub used_filter : Filter pairs
used_filter = record {
  curbuf = true;
  curblock = 1;
  blockcounter = 7;
  procblocks = λ n. 2;
  input_timecbuf = λ n b. 1 ∷ 1 ∷ 9 ∷ 9 ∷ [];
  input_freqcbuf = λ n. [];
  output_freqcbuf = λ n. [];
  cbuf = λ n i. [];
  ocbuf = λ n. [];
  overflow = λ n. record (no_overflow integers) { n_overflows = 3 };
  last_overflow = λ n. no_overflow integers;
  dither_state = λ n. 0;
}
