-- ===== src/Cli/Tests.antt =====
-- Tests of the command line interface of cli_server/, and the theorems about it at concrete commands.
use mathlib.Core.List.{flatten}
use foo_dsp_bfir.Base.{
  ◌≡◌, inl, inr, refl, true, false, arith, pos, List, [], ◌∷◌, ◌++◌, map, length, some, set,
  get_elem?,
}
use foo_dsp_bfir.Cli.Text.{Text, codes}
use foo_dsp_bfir.Cli.Reply.{status_ok, reply_message}
use foo_dsp_bfir.Cli.Settings.{
  first, second, file, set_file, clamp, eq_level_range_min, eq_level_range_max,
}
use foo_dsp_bfir.Cli.Parser.{Command, accepted, in_op_start, in_data, consume, parse}
use foo_dsp_bfir.Cli.Parser.Print.{message, IsCommand, empty_command, parse-message}
use foo_dsp_bfir.Cli.Parser.Accepted.{parse-accepted}
use foo_dsp_bfir.Cli.Connection.{
  fen, flv, ffn, operations, find_operation, handle_operation, handle_command, handle_eq_magnitude,
  handle_filename,
}
use foo_dsp_bfir.Cli.Connection.Settle.{
  IsSettled, IsAnswered, operation_of, handle_command-IsSettled, handle_command-IsAnswered,
}
use foo_dsp_bfir.Cli.Connection.Numbers.{IsInRange, handle_command-IsInRange}
use foo_dsp_bfir.Cli.Connection.ReadBack.{
  ReadsBack, SameBut, handle_operation-ReadsBack, handle_operation-SameBut,
}
use foo_dsp_bfir.Cli.Connection.Bands.{handle_eq_magnitude_lem}
use foo_dsp_bfir.Cli.Directory.{drive_strings, handle_dir, try_directory}
use foo_dsp_bfir.Cli.Directory.Drives.{drive_buffer, drive_strings-drive_buffer}
use foo_dsp_bfir.Cli.Session.{received, handle_reads}
use foo_dsp_bfir.Cli.Session.Chunks.{idle, after_command, chunks-message}
use foo_dsp_bfir.Cli.Session.Commands.{after_commands}
use foo_dsp_bfir.Cli.Examples.{digits, digits-SplitsCommas, one_directory, some_settings}

abbrev level_7 : Command
level_7 = record { cmd_op = codes "eqlv"; cmd_data = codes "7" }

abbrev enable_second : Command
enable_second = record { cmd_op = codes "F2EN"; cmd_data = codes "9" }

level_7-IsCommand : IsCommand level_7
level_7-IsCommand = (omega arith, omega arith)

level_is_set : (handle_command digits level_7 some_settings).settings.eq_level ≡ pos 7
unfolding handle_command find_operation operations handle_operation clamp
level_is_set = refl

flag_is_clamped : (handle_command digits enable_second some_settings).settings.file2.enable ≡ pos 1
unfolding handle_command find_operation operations handle_operation clamp file set_file
flag_is_clamped = refl

listing_has_one_reply : length (handle_dir one_directory (codes "d") (codes "x")) ≡ 1
unfolding handle_dir try_directory
listing_has_one_reply = refl

-- An error is followed by an empty reply.
no_drives_has_two_replies :
    handle_dir one_directory (codes "d") (codes "|")
    ≡ reply_message (codes "ERR") ∷ reply_message [] ∷ []
unfolding handle_dir try_directory
no_drives_has_two_replies = refl

parse-message_example :
    parse in_op_start empty_command (message level_7 ++ codes "abc")
    ≡ record { result = accepted; state = in_data; cmd = level_7; rest = codes "abc" }
parse-message_example = parse-message level_7 (codes "abc") level_7-IsCommand

parse-accepted_example :
    let p = parse in_op_start empty_command (codes "DIR" ++ (13 ∷ 65 ∷ [])) in
    IsCommand p.cmd × (codes "DIR" ++ (13 ∷ 65 ∷ []) ≡ message p.cmd ++ p.rest)
unfolding parse consume
parse-accepted_example = parse-accepted (codes "DIR" ++ (13 ∷ 65 ∷ [])) refl

chunks-message_example :
    handle_reads digits
      (map received (codes "eq" ∷ [] ∷ codes "lv " ∷ (55 ∷ 13 ∷ []) ∷ []))
      (idle some_settings false)
    ≡ after_command digits level_7 some_settings false
unfolding flatten
chunks-message_example =
    chunks-message digits level_7 (codes "eq" ∷ [] ∷ codes "lv " ∷ (55 ∷ 13 ∷ []) ∷ [])
      some_settings false level_7-IsCommand refl

-- A level in four reads, a flag in one, and a name for which the file system gives an error.
abbrev bad_name : Command
bad_name = record { cmd_op = codes "F1FN"; cmd_data = codes "bad" }

abbrev three_commands : List (Command × List Text)
three_commands =
    (level_7, codes "eq" ∷ [] ∷ codes "lv " ∷ (55 ∷ 13 ∷ []) ∷ [])
    ∷ (enable_second, message enable_second ∷ [])
    ∷ (bad_name, codes "F1F" ∷ codes "N ba" ∷ (100 ∷ 13 ∷ []) ∷ [])
    ∷ []

-- The first two are answered, and the last one is the end of the session.
three_commands_are_handled :
    let (c, replies) = after_commands digits three_commands some_settings false in
    (replies ≡ reply_message status_ok ∷ reply_message status_ok ∷ [])
    × (c.settings.eq_level ≡ pos 7)
    × (c.settings.file2.enable ≡ pos 1)
    × (c.broken ≡ true)
unfolding handle_command find_operation operations handle_operation handle_filename clamp file
    set_file
three_commands_are_handled = (refl, refl, refl, refl)

handle_command-IsSettled_example :
    IsSettled digits some_settings (handle_command digits level_7 some_settings)
handle_command-IsSettled_example = handle_command-IsSettled digits level_7 some_settings

handle_command-IsAnswered_example :
    IsAnswered digits enable_second.cmd_data some_settings
      (operation_of digits enable_second)
      (handle_command digits enable_second some_settings)
handle_command-IsAnswered_example = handle_command-IsAnswered digits enable_second some_settings

-- The file system gives an error for this name: no reply, and an exception.
bad_name_throws :
    handle_command digits bad_name some_settings
    ≡ record { settings = some_settings; replies = []; disconnected = false; thrown = true }
unfolding handle_command find_operation operations handle_operation handle_filename
bad_name_throws = refl

handle_command-IsInRange_example :
    IsInRange
      (handle_command digits
        (record { cmd_op = codes "F1FN"; cmd_data = codes "b.wav" })
        some_settings).settings
handle_command-IsInRange_example =
    handle_command-IsInRange digits (record { cmd_op = codes "F1FN"; cmd_data = codes "b.wav" })
      some_settings (λ i e. ground (arith, e)) (omega arith)

handle_operation-ReadsBack_example :
    ReadsBack digits (handle_operation digits (fen second)) (codes "9") (pos 1) some_settings
unfolding clamp
handle_operation-ReadsBack_example =
    handle_operation-ReadsBack digits (fen second) (codes "9") (pos 9) (pos 1) some_settings refl
      refl refl

handle_operation-SameBut_example :
    SameBut digits second some_settings
      (handle_operation digits (fen first) (codes "1") some_settings).settings
    × SameBut digits second some_settings
        (handle_operation digits (flv first) (codes "1") some_settings).settings
    × SameBut digits second some_settings
        (handle_operation digits (ffn first) (codes "1") some_settings).settings
handle_operation-SameBut_example =
    handle_operation-SameBut digits first second (codes "1") some_settings (λ e. ground (arith, e))

handle_eq_magnitude_lem_example :
    let new = digits.show_int (clamp eq_level_range_min eq_level_range_max (pos 9)) in
    let h = handle_eq_magnitude digits (codes "1") (codes "9") some_settings in
    let h' = handle_eq_magnitude digits (codes "7") [] h.settings in
    (h.replies ≡ reply_message status_ok ∷ [])
    × (digits.split h.settings.eq_mag ≡ set (digits.split some_settings.eq_mag) 1 new)
    × ((m : Text) × (get_elem? (set (digits.split some_settings.eq_mag) 1 new) 2 ≡ some m)
        × (h'.replies ≡ reply_message m ∷ []))
    × (h'.settings ≡ h.settings)
handle_eq_magnitude_lem_example =
    handle_eq_magnitude_lem digits digits-SplitsCommas (codes "1") (codes "7") (codes "9") (pos 1)
      (pos 7) (pos 9) 1 2 some_settings refl refl refl refl
      (
        refl,
        (λ e. absurd (omega arith), tt),
        (refl, (λ e. absurd (omega arith), tt), (refl, (λ e. absurd (omega arith), tt), tt)),
      )
      (omega arith, inr (inl refl)) (omega arith, inr (inr (omega arith, refl)))

drive_strings-drive_buffer_example :
    drive_strings [] (drive_buffer (codes "C:" ∷ codes "D:" ∷ []) (9 ∷ []))
    ≡ codes "C:" ∷ codes "D:" ∷ []
drive_strings-drive_buffer_example =
    drive_strings-drive_buffer (codes "C:" ∷ codes "D:" ∷ []) (9 ∷ []) (
      refl,
      (λ e. absurd (omega arith), (λ e. absurd (omega arith), tt)),
      (refl, (λ e. absurd (omega arith), (λ e. absurd (omega arith), tt)), tt),
    )
