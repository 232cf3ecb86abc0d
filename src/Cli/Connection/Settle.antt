-- ===== src/Cli/Connection/Settle.antt =====
-- What a command of cli_server/connection.cpp may change: `handle_command` on every branch.
use foo_dsp_bfir.Base.{
  ◌≡◌, refl, arith, true, false, Option, none, some, [], drop, ◌∷◌, length, if◌then◌else◌, ◌⊎◌, inl,
  inr, Bool-cases, Option-cases,
}
use foo_dsp_bfir.Cli.Text.{Text, codes, is_empty, ◌==ₜ◌}
use foo_dsp_bfir.Cli.Parser.{Command}
use foo_dsp_bfir.Cli.Reply.{status_ok, reply_message}
use foo_dsp_bfir.Cli.Directory.{handle_dir}
use foo_dsp_bfir.Cli.Settings.{Settings, File}
use foo_dsp_bfir.Cli.Connection.{
  Environment, Handled, Operation, eqen, eqlv, dir, close, fen, flv, ffn, fmd, operations,
  find_operation, send_reply, handle_eq_magnitude, handle_filename, handle_metadata,
  handle_operation, handle_command,
}

module _ (env : Environment) where
  -- Settings are kept, or the only reply is OK.
  abbrev pub IsSettled : Settings → Handled → Type 0
  IsSettled s h = (h.settings ≡ s) ⊎ (h.replies ≡ reply_message status_ok ∷ [])

  IsSettled-handle_filename :
      (which : File) (arg : Text) (s : Settings) → IsSettled s (handle_filename env which arg s)
  unfolding handle_filename
  IsSettled-handle_filename which arg s = ground arith

  IsSettled-handle_eq_magnitude :
      (number arg : Text) (s : Settings) → IsSettled s (handle_eq_magnitude env number arg s)
  unfolding handle_eq_magnitude
  IsSettled-handle_eq_magnitude number arg s = ground arith

  IsSettled-handle_operation :
      (op : Operation) (arg : Text) (s : Settings) → IsSettled s (handle_operation env op arg s)
  unfolding handle_operation handle_metadata
  IsSettled-handle_operation eqen arg s = ground arith
  IsSettled-handle_operation eqlv arg s = ground arith
  IsSettled-handle_operation (fen which) arg s = ground arith
  IsSettled-handle_operation (flv which) arg s = ground arith
  IsSettled-handle_operation (ffn which) arg s = IsSettled-handle_filename which arg s
  IsSettled-handle_operation (fmd which) arg s = inl refl
  IsSettled-handle_operation dir arg s = inl refl
  IsSettled-handle_operation close arg s = inl refl

  -- A command that changes any setting is answered by OK and by nothing else; so after an error
  -- reply, or any other reply, all settings are as before.
  pub handle_command-IsSettled :
      (cmd : Command) (s : Settings) → IsSettled s (handle_command env cmd s)
  unfolding handle_command send_reply
  handle_command-IsSettled cmd s =
      let op = env.to_upper cmd.cmd_op in
      elim (Bool-cases (env.starts_with op (codes "EQM"))) [
        | inl e ↦ rw e (IsSettled-handle_eq_magnitude (drop 3 op) cmd.cmd_data s)
        | inr e ↦ rw e (elim (Option-cases (find_operation op operations)) [
          | inl n ↦ rw n (inl refl)
          | inr (o, n) ↦ rw n (IsSettled-handle_operation o cmd.cmd_data s)
        ])
      ]

  length-handle_dir :
      (arg : Text)
      → (length (handle_dir env.fs env.default_dir arg) ≡ 1)
        ⊎ (length (handle_dir env.fs env.default_dir arg) ≡ 2)
  unfolding handle_dir
  length-handle_dir arg = ground arith

  -- The operation of a command, none for `EQM` and for an unknown one.
  abbrev pub operation_of : Command → Option Operation
  operation_of cmd =
      let op = env.to_upper cmd.cmd_op in
      if env.starts_with op (codes "EQM") then none else find_operation op operations

  -- One message, or two and that only for `DIR`; or an exception, that only for the name of an
  -- impulse file, where nothing is sent and the settings stay. Disconnected by `CLOSE` only.
  abbrev pub IsAnswered : Text → Settings → Option Operation → Handled → Type 0
  IsAnswered arg s o h =
      (((h.thrown ≡ false) × ((length h.replies ≡ 1) ⊎ ((o ≡ some dir) × (length h.replies ≡ 2))))
        ⊎ ((h.thrown ≡ true)
            × ((which : File) × (o ≡ some (ffn which)))
            × (env.exists arg ≡ none)
            × (length h.replies ≡ 0)
            × (h.settings ≡ s)))
      × ((h.disconnected ≡ false) ⊎ (o ≡ some close))

  IsAnswered-handle_eq_magnitude :
      (number arg : Text) (s : Settings)
      → IsAnswered arg s none (handle_eq_magnitude env number arg s)
  unfolding handle_eq_magnitude
  IsAnswered-handle_eq_magnitude number arg s = (ground arith, ground arith)

  IsAnswered-handle_filename :
      (which : File) (arg : Text) (s : Settings)
      → IsAnswered arg s (some (ffn which)) (handle_filename env which arg s)
  unfolding handle_filename
  IsAnswered-handle_filename which arg s = elim (Bool-cases (is_empty arg)) [
    | inl e ↦ rw e (inl (refl, inl refl), inl refl)
    | inr e ↦ rw e (elim (Bool-cases (arg ==ₜ codes "?")) [
      | inl q ↦ rw q (inl (refl, inl refl), inl refl)
      | inr q ↦ rw q (elim (Option-cases (env.exists arg)) [
        | inl x ↦ rw (x, handle_filename) (inr (refl, (which, refl), refl, refl, refl), inl refl)
        | inr (true, x) ↦
            rw (x, handle_filename)
              (elim (Option-cases (env.calculate_attenuation arg)) [
                | inl n ↦ rw n (inl (refl, inl refl), inl refl)
                | inr (i, n) ↦ rw n (inl (refl, inl refl), inl refl)
              ])
        | inr (false, x) ↦ rw (x, handle_filename) (inl (refl, inl refl), inl refl)
      ])
    ])
  ]

  IsAnswered-handle_operation :
      (op : Operation) (arg : Text) (s : Settings)
      → IsAnswered arg s (some op) (handle_operation env op arg s)
  unfolding handle_operation handle_metadata
  IsAnswered-handle_operation eqen arg s = (ground arith, ground arith)
  IsAnswered-handle_operation eqlv arg s = (ground arith, ground arith)
  IsAnswered-handle_operation (fen which) arg s = (ground arith, ground arith)
  IsAnswered-handle_operation (flv which) arg s = (ground arith, ground arith)
  IsAnswered-handle_operation (ffn which) arg s = IsAnswered-handle_filename which arg s
  IsAnswered-handle_operation (fmd which) arg s = (inl (refl, inl refl), inl refl)
  IsAnswered-handle_operation dir arg s =
      (inl (refl, ground (arith, length-handle_dir arg)), inl refl)
  IsAnswered-handle_operation close arg s = (inl (refl, inl refl), inr refl)

  -- Every command is answered by one message, or by two, and that only for `DIR`. There is one
  -- exception: a name of an impulse file for which Boost's test whether it exists throws. Then the
  -- exception leaves `handle_command`, nothing is sent, and the settings are as before. The client
  -- is disconnected by `CLOSE` only.
  pub handle_command-IsAnswered :
      (cmd : Command) (s : Settings)
      → IsAnswered cmd.cmd_data s (operation_of cmd) (handle_command env cmd s)
  unfolding handle_command send_reply
  handle_command-IsAnswered cmd s =
      let op = env.to_upper cmd.cmd_op in
      elim (Bool-cases (env.starts_with op (codes "EQM"))) [
        | inl e ↦ rw e (IsAnswered-handle_eq_magnitude (drop 3 op) cmd.cmd_data s)
        | inr e ↦ rw e (elim (Option-cases (find_operation op operations)) [
          | inl n ↦ rw n (inl (refl, inl refl), inl refl)
          | inr (o, n) ↦ rw n (IsAnswered-handle_operation o cmd.cmd_data s)
        ])
      ]
