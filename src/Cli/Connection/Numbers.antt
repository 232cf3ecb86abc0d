-- ===== src/Cli/Connection/Numbers.antt =====
-- The commands on numbers of cli_server/connection.cpp: what is set is read back, and the settings
-- stay in their ranges.
use foo_dsp_bfir.Base.{
  ◌≡◌, refl, arith, some, [], ◌∷◌, drop, ◌⊎◌, inl, inr, ℤ, pos, negsuc, ◌≤ℤ◌, true, false,
  Bool-cases, Option-cases,
}
use foo_dsp_bfir.Cli.Text.{Text, codes, is_empty, ◌==ₜ◌}
use foo_dsp_bfir.Cli.Parser.{Command}
use foo_dsp_bfir.Cli.Settings.{
  Settings, FileSettings, File, first, second, third, file, set_file, clamp, eq_level_range_min,
  eq_level_range_max, file_level_range_min, file_level_range_max,
}
use foo_dsp_bfir.Cli.Connection.{
  Environment, Impulse, Operation, eqen, eqlv, dir, close, fen, flv, ffn, fmd, operations,
  find_operation, send_reply, handle_number, handle_eq_magnitude, handle_filename, handle_metadata,
  handle_operation, handle_command,
}

abbrev pub IsWithin : ℤ → ℤ → ℤ → Type 0
IsWithin low high v = (low ≤ℤ v) × (v ≤ℤ high)

clamp-IsWithin : (low high v : ℤ) → low ≤ℤ high → IsWithin low high (clamp low high v)
unfolding clamp
clamp-IsWithin low high v h = ground arith

abbrev pub IsFileInRange : FileSettings → Type 0
IsFileInRange f =
    IsWithin (pos 0) (pos 1) f.enable × IsWithin file_level_range_min file_level_range_max f.level

-- The enable flags are 0 or 1 and the levels in the ranges of their sliders.
abbrev pub IsInRange : Settings → Type 0
IsInRange s =
    IsWithin (pos 0) (pos 1) s.eq_enable
    × IsWithin eq_level_range_min eq_level_range_max s.eq_level
    × IsFileInRange s.file1
    × IsFileInRange s.file2
    × IsFileInRange s.file3

module _ (env : Environment) where
  flags : (v : ℤ) → IsWithin (pos 0) (pos 1) (clamp (pos 0) (pos 1) v)
  flags v = clamp-IsWithin (pos 0) (pos 1) v (omega arith)

  levels : (v : ℤ) → IsWithin (negsuc 199) (pos 200) (clamp (negsuc 199) (pos 200) v)
  levels v = clamp-IsWithin (negsuc 199) (pos 200) v (omega arith)

  -- A property that each setting of a number keeps is kept by the command.
  pub keeps :
      (P : Settings → Type 0) (low high : ℤ) (get : Settings → ℤ) (put : ℤ → Settings → Settings)
      (arg : Text) (s : Settings)
      → P s
      → ((v : ℤ) → P (put (clamp low high v) s))
      → P (handle_number env low high get put arg s).settings
  unfolding handle_number
  keeps P low high get put [] s h step = h
  keeps P low high get put (a ∷ rest) s h step = elim (Option-cases (env.parse_int (a ∷ rest))) [
    | inl e ↦ rw e h
    | inr (v, e) ↦ rw e (step v)
  ]

  set_file-IsInRange :
      (which : File) (v : FileSettings) (s : Settings)
      → IsFileInRange v
      → IsInRange s
      → IsInRange (set_file which v s)
  unfolding set_file
  set_file-IsInRange first v s h (a, b, c, d, e) = (a, b, h, d, e)
  set_file-IsInRange second v s h (a, b, c, d, e) = (a, b, c, h, e)
  set_file-IsInRange third v s h (a, b, c, d, e) = (a, b, c, d, h)

  file-IsInRange : (which : File) (s : Settings) → IsInRange s → IsFileInRange (file which s)
  unfolding file
  file-IsInRange first s (a, b, c, d, e) = c
  file-IsInRange second s (a, b, c, d, e) = d
  file-IsInRange third s (a, b, c, d, e) = e

  -- Likewise for the file name of an impulse file.
  pub keeps_file :
      (P : Settings → Type 0) (which : File) (arg : Text) (s : Settings)
      → P s
      → ((enable level : ℤ) (filename metadata : Text)
          → IsWithin (pos 0) (pos 1) enable
          → (level ≡ pos 0)
            ⊎ ((i : Impulse) × (env.calculate_attenuation arg ≡ some i) × (level ≡ i.level))
          → P (
              set_file which
                (record {
                  enable = enable;
                  level = level;
                  filename = filename;
                  metadata = metadata;
                })
                s))
      → P (handle_filename env which arg s).settings
  unfolding handle_filename
  keeps_file P which arg s h step = elim (Bool-cases (is_empty arg)) [
    | inl e ↦ rw e h
    | inr e ↦ rw e (elim (Bool-cases (arg ==ₜ codes "?")) [
      | inl q ↦ rw q (step (pos 0) (pos 0) [] [] (omega arith) (inl refl))
      | inr q ↦ rw q (elim (Option-cases (env.exists arg)) [
        | inl t ↦ rw (t, handle_filename) h
        | inr (true, x) ↦
            rw (x, handle_filename)
              (elim (Option-cases (env.calculate_attenuation arg)) [
                | inl n ↦ rw n h
                | inr (i, n) ↦ rw n (step (pos 1) i.level arg _ (omega arith) (inr (i, n, refl)))
              ])
        | inr (false, x) ↦ rw (x, handle_filename) h
      ])
    ])
  ]

  handle_filename-IsInRange :
      (which : File) (arg : Text) (s : Settings)
      → ((i : Impulse)
          → env.calculate_attenuation arg ≡ some i
          → IsWithin file_level_range_min file_level_range_max i.level)
      → IsInRange s
      → IsInRange (handle_filename env which arg s).settings
  handle_filename-IsInRange which arg s found h =
      keeps_file IsInRange which arg s h (λ enable level filename metadata flag from.
        set_file-IsInRange which _ s
          (
            flag,
            elim from [
              | inl zero_level ↦ rw zero_level (omega arith)
              | inr (i, n, same) ↦ rw same (found i n)
            ],
          )
          h)

  handle_eq_magnitude-IsInRange :
      (number arg : Text) (s : Settings)
      → IsInRange s
      → IsInRange (handle_eq_magnitude env number arg s).settings
  unfolding handle_eq_magnitude
  handle_eq_magnitude-IsInRange number arg s h = elim (Option-cases (env.parse_int number)) [
    | inl e ↦ rw (e, handle_eq_magnitude) h
    | inr (b, e) ↦
        rw (e, handle_eq_magnitude)
          (elim (Bool-cases (is_empty arg)) [
            | inl x ↦ rw x h
            | inr x ↦
                rw x
                  (elim (Option-cases (env.parse_int arg)) [ inl n ↦ rw n h | inr (v, n) ↦ rw n h ])
          ])
  ]

  handle_operation-IsInRange :
      (op : Operation) (arg : Text) (s : Settings)
      → ((i : Impulse)
          → env.calculate_attenuation arg ≡ some i
          → IsWithin file_level_range_min file_level_range_max i.level)
      → IsInRange s
      → IsInRange (handle_operation env op arg s).settings
  unfolding handle_operation handle_metadata
  handle_operation-IsInRange eqen arg s found h =
      keeps IsInRange _ _ (λ t. t.eq_enable) (λ v t. record t { eq_enable = v }) arg s h
        (λ v. (flags v, h.1, h.2, h.3, h.4))
  handle_operation-IsInRange eqlv arg s found h =
      keeps IsInRange _ _ (λ t. t.eq_level) (λ v t. record t { eq_level = v }) arg s h
        (λ v. (h.0, levels v, h.2, h.3, h.4))
  handle_operation-IsInRange (fen which) arg s found h =
      keeps IsInRange _ _ (λ t. (file which t).enable)
        (λ v t. set_file which (record (file which t) { enable = v }) t) arg s h
        (λ v. set_file-IsInRange which _ s (flags v, (file-IsInRange which s h).1) h)
  handle_operation-IsInRange (flv which) arg s found h =
      keeps IsInRange _ _ (λ t. (file which t).level)
        (λ v t. set_file which (record (file which t) { level = v }) t) arg s h
        (λ v. set_file-IsInRange which _ s ((file-IsInRange which s h).0, levels v) h)
  handle_operation-IsInRange (ffn which) arg s found h =
      handle_filename-IsInRange which arg s found h
  handle_operation-IsInRange (fmd which) arg s found h = h
  handle_operation-IsInRange dir arg s found h = h
  handle_operation-IsInRange close arg s found h = h

  -- The ranges are an invariant: every command keeps the enable flags 0 or 1 and the levels within
  -- the ranges of the sliders, where the attenuation computed for the named impulse file is itself
  -- in the range of a level; the code does not clamp it.
  pub handle_command-IsInRange :
      (cmd : Command) (s : Settings)
      → ((i : Impulse)
          → env.calculate_attenuation cmd.cmd_data ≡ some i
          → IsWithin file_level_range_min file_level_range_max i.level)
      → IsInRange s
      → IsInRange (handle_command env cmd s).settings
  unfolding handle_command send_reply
  handle_command-IsInRange cmd s found h =
      let op = env.to_upper cmd.cmd_op in
      elim (Bool-cases (env.starts_with op (codes "EQM"))) [
        | inl e ↦ rw e (handle_eq_magnitude-IsInRange (drop 3 op) cmd.cmd_data s h)
        | inr e ↦ rw e (elim (Option-cases (find_operation op operations)) [
          | inl n ↦ rw n h
          | inr (o, n) ↦ rw n (handle_operation-IsInRange o cmd.cmd_data s found h)
        ])
      ]
