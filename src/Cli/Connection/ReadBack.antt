-- ===== src/Cli/Connection/ReadBack.antt =====
-- The commands on numbers of cli_server/connection.cpp: what is set is read back.
use foo_dsp_bfir.Base.{◌≡◌, ◌≢◌, refl, ap, subst, arith, false, Option, none, some, [], ◌∷◌, ℤ, pos}
use foo_dsp_bfir.Cli.Text.{Text, is_empty}
use foo_dsp_bfir.Cli.Reply.{status_ok, reply_message}
use foo_dsp_bfir.Cli.Settings.{
  Settings, FileSettings, File, first, second, third, file, set_file, clamp, eq_level_range_min,
  eq_level_range_max, file_level_range_min, file_level_range_max,
}
use foo_dsp_bfir.Cli.Connection.Numbers.{keeps, keeps_file}
use foo_dsp_bfir.Cli.Connection.{
  Environment, Handled, Operation, eqen, eqlv, dir, close, fen, flv, ffn, fmd, handle_number,
  handle_operation,
}

file-set_file :
    (which : File) (v : FileSettings) (s : Settings) → file which (set_file which v s) ≡ v
unfolding file set_file
file-set_file first v s = refl
file-set_file second v s = refl
file-set_file third v s = refl

module _ (env : Environment) where
  -- The operation with data and then without: the replies are OK and then the number, and the second
  -- changes nothing.
  abbrev pub ReadsBack : (Text → Settings → Handled) → Text → ℤ → Settings → Type 0
  ReadsBack handle arg v s =
      ((handle arg s).replies ≡ reply_message status_ok ∷ [])
      × ((handle [] (handle arg s).settings).replies ≡ reply_message (env.show_int v) ∷ [])
      × ((handle [] (handle arg s).settings).settings ≡ (handle arg s).settings)

  ReadsBack-handle_number :
      (low high : ℤ) (get : Settings → ℤ) (put : ℤ → Settings → Settings) (arg : Text) (v : ℤ)
      (s : Settings)
      → is_empty arg ≡ false
      → env.parse_int arg ≡ some v
      → ((w : ℤ) → get (put w s) ≡ w)
      → ReadsBack (handle_number env low high get put) arg (clamp low high v) s
  unfolding handle_number
  ReadsBack-handle_number low high get put arg v s some_data number law =
      rw (some_data, number) (refl, rw (law (clamp low high v)) refl, refl)

  -- The range and the value of an operation on a number.
  abbrev pub in_range_of : Operation → ℤ → Option ℤ
  in_range_of eqen v = some (clamp (pos 0) (pos 1) v)
  in_range_of eqlv v = some (clamp eq_level_range_min eq_level_range_max v)
  in_range_of (fen which) v = some (clamp (pos 0) (pos 1) v)
  in_range_of (flv which) v = some (clamp file_level_range_min file_level_range_max v)
  in_range_of (ffn which) v = none
  in_range_of (fmd which) v = none
  in_range_of dir v = none
  in_range_of close v = none

  -- What is set is read back: for each of the eight operations on a number, where data is not empty
  -- and reads as a number, the reply is OK, and the operation without data then replies the number
  -- brought into the range of the operation, and changes nothing.
  pub handle_operation-ReadsBack :
      (op : Operation) (arg : Text) (v w : ℤ) (s : Settings)
      → is_empty arg ≡ false
      → env.parse_int arg ≡ some v
      → in_range_of op v ≡ some w
      → ReadsBack (handle_operation env op) arg w s
  unfolding handle_operation
  handle_operation-ReadsBack eqen arg v w s some_data number range =
      subst (λ k. ReadsBack (handle_operation env eqen) arg k s) (ground (arith, range))
        (ReadsBack-handle_number (pos 0) (pos 1) (λ t. t.eq_enable)
          (λ x t. record t { eq_enable = x }) arg v s some_data number (λ x. refl))
  handle_operation-ReadsBack eqlv arg v w s some_data number range =
      subst (λ k. ReadsBack (handle_operation env eqlv) arg k s) (ground (arith, range))
        (ReadsBack-handle_number eq_level_range_min eq_level_range_max (λ t. t.eq_level)
          (λ x t. record t { eq_level = x }) arg v s some_data number (λ x. refl))
  handle_operation-ReadsBack (fen which) arg v w s some_data number range =
      subst (λ k. ReadsBack (handle_operation env (fen which)) arg k s) (ground (arith, range))
        (ReadsBack-handle_number (pos 0) (pos 1) (λ t. (file which t).enable)
          (λ x t. set_file which (record (file which t) { enable = x }) t) arg v s some_data number
          (λ x. ap (λ f. f.enable) (file-set_file which _ s)))
  handle_operation-ReadsBack (flv which) arg v w s some_data number range =
      subst (λ k. ReadsBack (handle_operation env (flv which)) arg k s) (ground (arith, range))
        (ReadsBack-handle_number file_level_range_min file_level_range_max
          (λ t. (file which t).level)
          (λ x t. set_file which (record (file which t) { level = x }) t) arg v s some_data number
          (λ x. ap (λ f. f.level) (file-set_file which _ s)))
  handle_operation-ReadsBack (ffn which) arg v w s some_data number range =
      absurd (ground (arith, range))
  handle_operation-ReadsBack (fmd which) arg v w s some_data number range =
      absurd (ground (arith, range))
  handle_operation-ReadsBack dir arg v w s some_data number range = absurd (ground (arith, range))
  handle_operation-ReadsBack close arg v w s some_data number range = absurd (ground (arith, range))

  -- What an operation on another file than `other` may not touch.
  abbrev pub SameBut : File → Settings → Settings → Type 0
  SameBut other s s' =
      (file other s' ≡ file other s)
      × (s'.eq_enable ≡ s.eq_enable)
      × (s'.eq_level ≡ s.eq_level)
      × (s'.eq_mag ≡ s.eq_mag)

  SameBut-set_file :
      (which other : File) (v : FileSettings) (s : Settings)
      → other ≢ which
      → SameBut other s (set_file which v s)
  unfolding file set_file
  SameBut-set_file first first v s ne = absurd (ne refl)
  SameBut-set_file first second v s ne = (refl, refl, refl, refl)
  SameBut-set_file first third v s ne = (refl, refl, refl, refl)
  SameBut-set_file second first v s ne = (refl, refl, refl, refl)
  SameBut-set_file second second v s ne = absurd (ne refl)
  SameBut-set_file second third v s ne = (refl, refl, refl, refl)
  SameBut-set_file third first v s ne = (refl, refl, refl, refl)
  SameBut-set_file third second v s ne = (refl, refl, refl, refl)
  SameBut-set_file third third v s ne = absurd (ne refl)

  -- The files are independent: enabling one of them, setting its level or its file name leaves the
  -- settings of every other file and those of the equalizer as they are, whatever the data.
  pub handle_operation-SameBut :
      (which other : File) (arg : Text) (s : Settings)
      → other ≢ which
      → SameBut other s (handle_operation env (fen which) arg s).settings
        × SameBut other s (handle_operation env (flv which) arg s).settings
        × SameBut other s (handle_operation env (ffn which) arg s).settings
  unfolding handle_operation
  handle_operation-SameBut which other arg s ne =
      let same : SameBut other s s = (refl, refl, refl, refl) in
      (
        keeps env (SameBut other s) (pos 0) (pos 1) (λ t. (file which t).enable)
            (λ x t. set_file which (record (file which t) { enable = x }) t) arg s same
            (λ x. SameBut-set_file which other _ s ne),
        keeps env (SameBut other s) file_level_range_min file_level_range_max
            (λ t. (file which t).level)
            (λ x t. set_file which (record (file which t) { level = x }) t) arg s same
            (λ x. SameBut-set_file which other _ s ne),
        keeps_file env (SameBut other s) which arg s same
            (λ enable level filename metadata flag from. SameBut-set_file which other _ s ne),
      )
