-- ===== src/Brutefir.antt =====
-- brutefir/brutefir.cpp, the class `brutefir`: channel configuration, the filter and its coefficients.
pub mod Real
pub mod Config
pub mod Convolver
pub mod Filter
pub mod Spec
pub mod Run
pub mod Coeff
pub mod Spectrum
pub mod Delay
pub mod Sample
pub mod Mix
pub mod Ordered
pub mod Realsize
mod Examples
