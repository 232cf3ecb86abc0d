-- ===== src/Dsp.antt =====
-- foo_dsp_bfir/foo_dsp_bfir.cpp: the class `dsp_bfir`, which feeds the samples of the player to a
-- filter.
pub mod Buffering
pub mod Init
pub mod Chunk
