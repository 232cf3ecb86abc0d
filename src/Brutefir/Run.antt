-- ===== src/Brutefir/Run.antt =====
-- `brutefir::run` of brutefir/brutefir.cpp refines the partitioned convolution of Brutefir/Spec: the
-- relation between a filter and the history of its input blocks.
pub mod Ring
pub mod Input
pub mod Sum
pub mod Output
pub mod Step
pub mod Loop
pub mod Refine
pub mod Reset
mod Tests
use foo_dsp_bfir.Base.{
  ℕ, ◌+◌, ◌-◌, ◌%◌, ◌^◌, ◌<◌, ◌≤◌, ◌≡◌, Bool, Option, some, List, get_elem?, length, take, map, min,
}
use foo_dsp_bfir.Brutefir.Real.{Real}
use foo_dsp_bfir.Brutefir.Convolver.{Convolver}
use foo_dsp_bfir.Brutefir.Filter.{Buffer, Conf, Filter}
use foo_dsp_bfir.Brutefir.Spec.{previous, spectra}

module _ {R : Real} (cv : Convolver R) (conf : Conf cv) (silence : ℕ → Buffer cv) where
  open cv use {Raw}

  -- Channel `n` holds the history `hist`, with `side` the half buffer that waits for the next block.
  pub record Holds (hist : List Raw) (side : Bool) (f : Filter cv) (n : ℕ) : Type 0 where
    pub front : take cv.n_fft2 (f.input_timecbuf n side) ≡ previous cv conf silence n hist
    pub processed : f.procblocks n ≡ min (length hist) conf.n_blocks
    pub stored :
        1 < conf.n_blocks
        → (j : ℕ) → j < min (length hist) conf.n_blocks
        → get_elem? (spectra cv conf silence n hist) j
          ≡ some (f.cbuf n ((length hist - 1 - j) % conf.n_blocks))

  -- The filter has taken the blocks of `hist`, and fewer than 2^32 of them.
  pub record Represents (hist : List Raw) (f : Filter cv) : Type 0 where
    pub counter : f.blockcounter ≡ length hist
    pub channels : (n : ℕ) → n < conf.n_channels → Holds hist f.curbuf f n

-- The coefficients are set: each channel has at least one block and at most as many as the filter.
pub record HasCoeffs {R : Real} (cv : Convolver R) (conf : Conf cv) (hs : ℕ → List (Buffer cv))
    : Type 0 where
  pub data_set : (n : ℕ) → n < conf.n_channels → (conf.coeffs n).blocks ≡ some (map some (hs n))
  pub counted : (n : ℕ) → n < conf.n_channels → (conf.coeffs n).n_blocks ≡ length (hs n)
  pub nonempty : (n : ℕ) → n < conf.n_channels → 0 < length (hs n)
  pub fits : (n : ℕ) → n < conf.n_channels → length (hs n) ≤ conf.n_blocks
