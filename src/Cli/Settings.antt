-- ===== src/Cli/Settings.antt =====
-- The settings that cli_server/ reads and writes: the `cfg_` variables of foo_dsp_bfir/prefs_eq.cpp
-- and prefs_file.cpp, with the ranges of foo_dsp_bfir/common.h.
use foo_dsp_bfir.Base.{ℤ, pos, negsuc, ltb_ℤ, if◌then◌else◌}
use foo_dsp_bfir.Cli.Text.{Text}

pub record FileSettings : Type 0 where
  pub enable : ℤ
  pub level : ℤ
  pub filename : Text
  pub metadata : Text

pub record Settings : Type 0 where
  pub eq_enable : ℤ
  pub eq_level : ℤ
  pub eq_mag : Text
  pub file1 : FileSettings
  pub file2 : FileSettings
  pub file3 : FileSettings

-- Which of the three impulse files.
pub data File : Type 0 where
  first second third : File

unfoldable pub file : File → Settings → FileSettings
file first s = s.file1
file second s = s.file2
file third s = s.file3

unfoldable pub set_file : File → FileSettings → Settings → Settings
set_file first v s = record s { file1 = v }
set_file second v s = record s { file2 = v }
set_file third v s = record s { file3 = v }

abbrev pub eq_level_range_min : ℤ
eq_level_range_min = negsuc 199

abbrev pub eq_level_range_max : ℤ
eq_level_range_max = pos 200

abbrev pub file_level_range_min : ℤ
file_level_range_min = negsuc 199

abbrev pub file_level_range_max : ℤ
file_level_range_max = pos 200

abbrev pub default_cfg_file_level : ℤ
default_cfg_file_level = pos 0

-- `if (val < low) val = low; if (val > high) val = high;`
unfoldable pub clamp : ℤ → ℤ → ℤ → ℤ
clamp low high val =
    let val' = if ltb_ℤ val low then low else val in if ltb_ℤ high val' then high else val'
