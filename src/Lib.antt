-- ===== src/Lib.antt =====
-- Verification of foo_dsp_bfir, a convolution plugin for the player foobar2000.
--
-- The plugin takes the player's sample chunks (foo_dsp_bfir/foo_dsp_bfir.cpp), collects them into
-- blocks and runs a filter on each (brutefir/brutefir.cpp), which convolves every channel with the
-- coefficients of an impulse response, in blocks and in the frequency domain
-- (brutefir/fftw_convolver.cpp, brutefir/coeff.cpp). A command line interface (cli_server/) changes
-- the settings over a socket. The parts and the files that model them:
--
-- Base, with its children: the library's names that all share, Boolean tests, signed integers, list
-- and array lemmas.
-- Util: `get_next_power_of_two` and `get_next_multiple` of brutefir/util.cpp.
-- Brutefir: the class `brutefir` of brutefir/brutefir.cpp. Real is what is used of `double`;
-- Convolver is what is used of `fftw_convolver`, an interface, with the laws a client relies on
-- (IsLawful). Config is the channel configuration (`init_channels` and what it calls), Filter the
-- buffers with `run`, `reset` and `check_overflows`. Spec is partitioned convolution over the history
-- of input blocks; Run relates a filter to a history (Represents) and its children hold the
-- lemmas between them. Coeff is `set_coeff`, `free_coeff`, `preprocess_coeff` of brutefir/coeff.cpp and
-- `convolver_coeffs2cbuf`. Spectrum is the products of spectra of brutefir/fftw_convolver.cpp
-- (`convolvef`, `convolve_inplacef`, `convolve_addf`), Mix its `mixnscale`, which adds buffers up and
-- puts half-complex numbers into the order of the products and back, Ordered its
-- `convolve_inplace_ordered`, Realsize the choice between float and double (`convolver_convolve` and
-- its like), the convolution with a Dirac impulse and `convolver_verify_cbuf`. Sample is the
-- conversion of samples: Bytes, Words and Integers are memory as brutefir/numunion.h and
-- brutefir/swap.h see it, Raw2Real and Real2Raw are brutefir/raw2real.cpp and brutefir/real2raw.cpp,
-- Quantize, Dither, Map, Window, Machine and Table are brutefir/dither.cpp, Convert is their functions
-- by name with
-- `convolver_raw2cbuf` and `convolver_cbuf2raw`; Copy, Keeps, RoundTrip, FloatTrip, Range and Whole hold
-- what is proved of them. Delay is the delay buffer of
-- brutefir/delay.cpp (`update`, `change_delay`) on the samples of a channel; Delay/Interleaved is its
-- copies in an interleaved buffer (`copy_to_delaybuf`, `copy_from_delaybuf`, `shift_samples`) and
-- Delay/Raw the same `update` on memory, related to the one on samples.
-- Dsp: the class `dsp_bfir`. Buffering is the loop over the samples of a chunk, over the interface
-- FilterApi to a filter; Init chooses the impulse files and makes the filter; Chunk is `on_chunk` and
-- `flush`.
-- Cli: Text and Settings are the data; Parser is the state machine of cli_server/command_parser.cpp;
-- Connection is `handle_command` of cli_server/connection.cpp with one handler per command, over the
-- interface Environment; Directory is the command DIR, over FileSystem; Session is `handle_read`, its
-- children Chunks and Commands one command in pieces and a session of many.
--
-- State is passed explicitly: each operation takes the record of its members and gives the new one.
-- Arrays over channels and blocks are functions of the index, written by `update`; an access out of
-- range or through NULL is a value of the result (`fault` in Filter, `use_after_free` in Chunk), and
-- so is the exception of `boost::filesystem::exists` (`thrown` in Connection, `broken` in Session).
-- `mixnscale` is not used for no buffers at all, where the source reads entries that nobody has filled
-- and the model the buffer 0. The
-- word sizes are written out: `% 2 ^ 32` for `unsigned int` and `uint32_t`, `to_int32` and
-- `signed_char` for conversions to signed types. `int` sums and products of buffer sizes are taken
-- to be small enough.
--
-- Fuel: the loops of Util take fuel and give `none` without it; 31 rounds are enough for
-- `get_next_power_of_two` and more rounds than the value for `get_next_multiple`. The loop of
-- `on_chunk` takes a round for each sample of a channel at most. `shift_samples` takes fuel for its
-- 24-bit case alone. All other loops are structural.
--
-- Memory is a function from addresses to bytes, little-endian as on the machines the plugin is built
-- for; `realsize` is the data type Realsize.
--
-- Parameters: `double` and its operations (Real, Precision for what the conversions use of `float` and
-- `double`, Float and Floats for the spectra), with what is used of whole numbers as named hypotheses;
-- the transforms of FFTW, the products of spectra and the conversion of samples (Convolver); Boost's
-- string functions and file system, the calls of Windows, `util::wstr2str` and json_spirit
-- (Environment, FileSystem);
-- the sound file functions, the equalizer and the preconvolution (Tools).
--
-- Not modelled: allocation, printing, the dialogs, sockets and threads, which keep no state that the
-- models read (a reply is the message given to `send`, whose failure the code does not look at);
-- Boost's conversions of bytes to wide characters and back, which replace what they cannot convert;
-- the branches for a big-endian build; the crossfade and the time domain convolution of
-- brutefir/fftw_convolver.cpp, and the subsample delay that stands on it. Of the
-- other parts the equalizer, the preconvolution, the reading of coefficient files, the set of
-- connections, and the logarithms and hash functions have no model yet.
pub mod Base
pub mod Util
pub mod Brutefir
pub mod Cli
pub mod Dsp
