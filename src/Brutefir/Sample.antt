-- ===== src/Brutefir/Sample.antt =====
-- The conversion of samples between raw interleaved buffers and buffers of `float` or `double`:
-- brutefir/raw2real.cpp, brutefir/real2raw.cpp, the quantization of brutefir/dither.cpp, the words of
-- brutefir/numunion.h and the byte order of brutefir/swap.h.
pub mod Bytes
pub mod Precision
pub mod Raw2Real
pub mod Quantize
pub mod Real2Raw
pub mod Dither
pub mod Convert
pub mod Words
mod Copy
pub mod Whole
pub mod Integers
pub mod RoundTrip
pub mod Range
mod Keeps
mod Examples
mod Tests
pub mod Map
pub mod FloatTrip
pub mod Window
pub mod Machine
pub mod Table
