-- ===== src/Dsp/Init.antt =====
-- The initialization in `dsp_bfir::on_chunk` of foo_dsp_bfir/foo_dsp_bfir.cpp: the impulse files that
-- are in use, and the filter that is made of them.
use foo_dsp_bfir.Base.{
  ℕ, ◌/◌, Bool, not, ◌&&◌, Option, none, some, List, [], ◌∷◌, ◌++◌, if◌then◌else◌, ℤ, pos, leb_ℤ,
}
use foo_dsp_bfir.Cli.Text.{Text, is_empty}
use foo_dsp_bfir.Util.{get_next_multiple}
use foo_dsp_bfir.Dsp.Buffering.{filter_len, FilterApi}

unfoldable pub is_nonzero : ℤ → Bool
is_nonzero v = not (leb_ℤ (pos 0) v && leb_ℤ v (pos 0))

-- The settings of an impulse file, with its scale.
pub record FileConfig (Double : Type 0) : Type 0 where
  pub enable : ℤ
  pub filename : Text
  pub resample : ℤ
  pub scale : Double

pub record Config (Double : Type 0) : Type 0 where
  pub eq_enable : ℤ
  pub eq_scale : Double
  pub file1 : FileConfig Double
  pub file2 : FileConfig Double
  pub file3 : FileConfig Double

-- `struct impulse_info`
pub record ImpulseInfo (Double : Type 0) : Type 0 where
  pub filename : Text
  pub scale : Double

-- What the initialization calls: the sound file functions of brutefir/buffer.cpp on a number of
-- channels and a sampling rate, `generate` of brutefir/equalizer.cpp, `convolve_impulses` of
-- brutefir/preprocessor.cpp, the frames of a sound file (`none` for false), and the construction of
-- a filter with a number of blocks together with `set_coeff`.
pub record Tools (api : FilterApi) : Type 1 where
  pub Double : Type 0
  pub one : Double
  pub check_snd_file : Text → ℕ → ℕ → Bool
  pub resample_snd_file : Text → ℕ → ℕ → Text
  pub generate : ℕ → ℕ → Text
  pub convolve_impulses : List (ImpulseInfo Double) → Text
  pub get_snd_file_params : Text → Option ℕ
  pub new_filter : Text → ℕ → Double → ℕ → ℕ → api.Filter

module _ {api : FilterApi} (tools : Tools api) where
  open tools use {Double}

  -- The file of one of the three settings, if it is in use.
  unfoldable pub file_impulse : ℕ → ℕ → FileConfig Double → List (ImpulseInfo Double)
  unfolding is_nonzero
  file_impulse channels srate c =
      let resampled =
        if is_nonzero c.resample then tools.resample_snd_file c.filename channels srate else [] in
      let name = if tools.check_snd_file c.filename channels srate then c.filename else resampled in
      if is_nonzero c.enable && not (is_empty c.filename)
      then if is_empty name then [] else record { filename = name; scale = c.scale } ∷ []
      else []

  unfoldable pub impulses : ℕ → ℕ → Config Double → List (ImpulseInfo Double)
  unfolding file_impulse
  impulses channels srate c =
      let eq =
        if is_nonzero c.eq_enable
        then record { filename = tools.generate channels srate; scale = c.eq_scale } ∷ []
        else [] in
      eq
      ++ (file_impulse channels srate c.file1
          ++ (file_impulse channels srate c.file2 ++ file_impulse channels srate c.file3))

  -- The one file and its scale.
  unfoldable pub single_impulse : List (ImpulseInfo Double) → Text × Double
  single_impulse [] = ([], tools.one)
  single_impulse (i ∷ []) = (i.filename, i.scale)
  single_impulse (i ∷ j ∷ is) = (tools.convolve_impulses (i ∷ j ∷ is), tools.one)

  -- The new filter, if one is made. `fuel` is for the loop of `get_next_multiple`.
  unfoldable pub create_filter : ℕ → ℕ → ℕ → Config Double → Option api.Filter
  unfolding impulses single_impulse
  create_filter fuel channels srate c =
      let (name, scale) = single_impulse (impulses channels srate c) in
      if is_empty name then none else elim (tools.get_snd_file_params name) [
        | none ↦ none
        | some n_frames ↦ elim (get_next_multiple fuel n_frames filter_len) [
          | none ↦ none
          | some len ↦ some (tools.new_filter name (len / filter_len) scale channels srate)
        ]
      ]
