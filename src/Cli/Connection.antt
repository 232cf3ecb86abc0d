-- ===== src/Cli/Connection.antt =====
-- `connection::handle_command` of cli_server/connection.cpp: one handler per command, and the
-- dispatch on the operation. A handler returns the settings, the messages sent in order, whether
-- the client is disconnected, and whether an exception leaves it.
pub mod Settle
pub mod Numbers
pub mod ReadBack
pub mod Bands
use foo_dsp_bfir.Base.{
  ℕ, zero, suc, ◌+◌, ◌-◌, Bool, true, false, Option, none, some, List, [], ◌∷◌, ◌++◌, length,
  get_elem?, set, drop, if◌then◌else◌, ℤ, pos, negsuc, ltb_ℤ, pos_part,
}
use foo_dsp_bfir.Cli.Text.{Text, codes, ◌==ₜ◌, is_empty}
use foo_dsp_bfir.Cli.Parser.{Command, cmd_term}
use foo_dsp_bfir.Cli.Reply.{status_ok, status_error, reply_message}
use foo_dsp_bfir.Cli.Directory.{FileSystem, handle_dir}
use foo_dsp_bfir.Cli.Settings.{
  Settings, File, first, second, third, file, set_file, eq_level_range_min, eq_level_range_max,
  file_level_range_min, file_level_range_max, default_cfg_file_level, clamp,
}

-- What `preprocessor::calculate_attenuation` gives: `level` is `(int)(attenuation *
-- FILE_LEVEL_STEPS_PER_DB)`, and the other three are printed.
pub record Impulse : Type 0 where
  pub level : ℤ
  pub n_channels : ℤ
  pub n_frames : ℤ
  pub sampling_rate : ℤ

-- What the handlers call: Boost's string functions, `lexical_cast` in its two directions (`none` is
-- `bad_lexical_cast`), `split` on commas with `token_compress_on`, whether a file exists (`none` where
-- the call throws a `filesystem_error`), the attenuation of an impulse file (`none` for false), and what `DIR` reads, with the default directory.
pub record Environment : Type 1 where
  pub to_upper : Text → Text
  pub starts_with : Text → Text → Bool
  pub parse_int : Text → Option ℤ
  pub show_int : ℤ → Text
  pub split : Text → List Text
  pub exists : Text → Option Bool
  pub calculate_attenuation : Text → Option Impulse
  pub fs : FileSystem
  pub default_dir : Text

-- What a handler leaves.
pub record Handled : Type 0 where
  pub settings : Settings
  pub replies : List Text
  pub disconnected : Bool
  pub thrown : Bool

-- The operations, in the order of the tests.
pub data Operation : Type 0 where
  eqen eqlv dir close : Operation
  fen flv ffn fmd : File → Operation

unfoldable pub operations : List (Text × Operation)
operations =
    (codes "EQEN", eqen)
    ∷ (codes "F1EN", fen first)
    ∷ (codes "F2EN", fen second)
    ∷ (codes "F3EN", fen third)
    ∷ (codes "EQLV", eqlv)
    ∷ (codes "F1LV", flv first)
    ∷ (codes "F2LV", flv second)
    ∷ (codes "F3LV", flv third)
    ∷ (codes "F1FN", ffn first)
    ∷ (codes "F2FN", ffn second)
    ∷ (codes "F3FN", ffn third)
    ∷ (codes "F1MD", fmd first)
    ∷ (codes "F2MD", fmd second)
    ∷ (codes "F3MD", fmd third)
    ∷ (codes "DIR", dir)
    ∷ (codes "CLOSE", close)
    ∷ []

-- The first operation of that name.
unfoldable pub find_operation : Text → List (Text × Operation) → Option Operation
find_operation op [] = none
find_operation op (entry ∷ entries) =
    if op ==ₜ entry.0 then some entry.1 else find_operation op entries

unfoldable pub send_reply : Text → Settings → Handled
unfolding reply_message
send_reply data_text s = record {
  settings = s;
  replies = reply_message data_text ∷ [];
  disconnected = false;
  thrown = false;
}

-- An exception that no handler catches: nothing is sent and nothing changes.
abbrev pub throws : Settings → Handled
throws s = record { settings = s; replies = []; disconnected = false; thrown = true }

-- The magnitudes with commas between them.
unfoldable pub join : List Text → Text
join [] = []
join (mag ∷ []) = mag
join (mag ∷ m ∷ mags) = mag ++ (codes "," ++ join (m ∷ mags))

-- The band, not below 0 and not above the last one.
unfoldable pub band_index : ℤ → List Text → ℕ
band_index band mags =
    let low = if ltb_ℤ band (pos 0) then pos 0 else band in
    let last : ℤ = elim (length mags) [ zero ↦ negsuc 0 | suc n ↦ pos n ] in
    pos_part (if ltb_ℤ last low then last else low)

-- `mags[band]`, within the bounds.
unfoldable pub magnitude : List Text → ℕ → Text
magnitude mags i = elim (get_elem? mags i) [ none ↦ [] | some m ↦ m ]

module _ (env : Environment) where
  -- A command on a number: it is set to the clamped data, or read.
  unfoldable pub handle_number :
      ℤ → ℤ → (Settings → ℤ) → (ℤ → Settings → Settings) → Text → Settings → Handled
  unfolding send_reply
  handle_number low high get put arg s =
      if is_empty arg then send_reply (env.show_int (get s)) s else elim (env.parse_int arg) [
        | none ↦ send_reply status_error s
        | some val ↦ send_reply status_ok (put (clamp low high val) s)
      ]

  unfoldable pub handle_eq_enable : Text → Settings → Handled
  unfolding handle_number
  handle_eq_enable arg s =
      handle_number (pos 0) (pos 1) (λ t. t.eq_enable) (λ v t. record t { eq_enable = v }) arg s

  unfoldable pub handle_eq_level : Text → Settings → Handled
  unfolding handle_number
  handle_eq_level arg s =
      handle_number eq_level_range_min eq_level_range_max (λ t. t.eq_level)
        (λ v t. record t { eq_level = v }) arg s

  unfoldable pub handle_file_enable : File → Text → Settings → Handled
  unfolding handle_number
  handle_file_enable which arg s =
      handle_number (pos 0) (pos 1) (λ t. (file which t).enable)
        (λ v t. set_file which (record (file which t) { enable = v }) t) arg s

  unfoldable pub handle_file_level : File → Text → Settings → Handled
  unfolding handle_number
  handle_file_level which arg s =
      handle_number file_level_range_min file_level_range_max (λ t. (file which t).level)
        (λ v t. set_file which (record (file which t) { level = v }) t) arg s

  -- The description of an impulse file.
  unfoldable pub describe : Impulse → Text
  describe i =
      env.show_int i.n_frames
      ++ (codes " samples, "
          ++ (env.show_int i.n_channels
              ++ (codes " channels, " ++ (env.show_int i.sampling_rate ++ codes " Hz"))))

  unfoldable pub handle_filename : File → Text → Settings → Handled
  unfolding send_reply describe
  handle_filename which arg s =
      if is_empty arg
      then send_reply (file which s).filename s
      else if arg ==ₜ codes "?"
      then send_reply status_ok (
          set_file which
            (record {
              enable = pos 0;
              level = default_cfg_file_level;
              filename = [];
              metadata = [];
            })
            s)
      else elim (env.exists arg) [
        | none ↦ throws s
        | some false ↦ send_reply status_error s
        | some true ↦ elim (env.calculate_attenuation arg) [
          | none ↦ send_reply status_error s
          | some impulse ↦ send_reply status_ok (
              set_file which
                (record {
                  enable = pos 1;
                  level = impulse.level;
                  filename = arg;
                  metadata = describe impulse;
                })
                s)
        ]
      ]

  unfoldable pub handle_metadata : File → Settings → Handled
  unfolding send_reply
  handle_metadata which s = send_reply (file which s).metadata s

  -- `EQM` with the number of a band behind it.
  unfoldable pub handle_eq_magnitude : Text → Text → Settings → Handled
  unfolding send_reply
  handle_eq_magnitude number arg s = elim (env.parse_int number) [
    | none ↦ send_reply status_error s
    | some band ↦
        let mags = env.split s.eq_mag in
        let i = band_index band mags in
        if is_empty arg then send_reply (magnitude mags i) s else elim (env.parse_int arg) [
          | none ↦ send_reply status_error s
          | some val ↦ send_reply status_ok (record s {
            eq_mag =
                join (set mags i (env.show_int (clamp eq_level_range_min eq_level_range_max val)));
          })
        ]
  ]

  unfoldable pub handle_operation : Operation → Text → Settings → Handled
  unfolding handle_eq_enable handle_eq_level handle_file_enable handle_file_level
  handle_operation eqen arg s = handle_eq_enable arg s
  handle_operation eqlv arg s = handle_eq_level arg s
  handle_operation (fen which) arg s = handle_file_enable which arg s
  handle_operation (flv which) arg s = handle_file_level which arg s
  handle_operation (ffn which) arg s = handle_filename which arg s
  handle_operation (fmd which) arg s = handle_metadata which s
  handle_operation dir arg s = record {
    settings = s;
    replies = handle_dir env.fs env.default_dir arg;
    disconnected = false;
    thrown = false;
  }
  handle_operation close arg s = record (send_reply status_ok s) { disconnected = true }

  unfoldable pub handle_command : Command → Settings → Handled
  handle_command cmd s =
      let op = env.to_upper cmd.cmd_op in
      if env.starts_with op (codes "EQM")
      then handle_eq_magnitude (drop 3 op) cmd.cmd_data s
      else elim (find_operation op operations) [
        | none ↦ send_reply status_error s
        | some operation ↦ handle_operation operation cmd.cmd_data s
      ]
