-- ===== src/Cli/Directory/Drives.antt =====
-- The walk over the buffer of drive letters in cli_server/connection.cpp.
use foo_dsp_bfir.Base.{
  ℕ, ◌≡◌, ◌≢◌, refl, ap, ◌∙◌, arith, ◌==◌, false, List, [], ◌∷◌, ◌++◌, append-nil, append_assoc,
}
use foo_dsp_bfir.Cli.Text.{Text, is_empty}
use foo_dsp_bfir.Cli.Directory.{drive_strings}

abbrev pub HasNoZero : Text → Type 0
HasNoZero [] = Unit
HasNoZero (c ∷ cs) = (c ≢ 0) × HasNoZero cs

-- Strings with at least one character and no 0.
abbrev pub AllNames : List Text → Type 0
AllNames [] = Unit
AllNames (d ∷ ds) = (is_empty d ≡ false) × HasNoZero d × AllNames ds

-- A buffer of strings, each with a 0 behind it, and another 0 at the end.
abbrev pub drive_buffer : List Text → List ℕ → List ℕ
drive_buffer [] rest = 0 ∷ rest
drive_buffer (d ∷ ds) rest = d ++ (0 ∷ drive_buffer ds rest)

strings-word :
    (part d rest : Text)
    → HasNoZero d
    → drive_strings part (d ++ rest) ≡ drive_strings (part ++ d) rest
unfolding drive_strings
strings-word part [] rest h = rw append-nil refl
strings-word part (c ∷ cs) rest h =
    let no : (c == 0) ≡ false = ground (arith, h.0) in
    rw (no, drive_strings)
      (strings-word (part ++ (c ∷ [])) cs rest h.1 ∙ rw (append_assoc part (c ∷ []) cs) refl)

strings-end :
    (part rest : Text)
    → is_empty part ≡ false
    → drive_strings part (0 ∷ rest) ≡ part ∷ drive_strings [] rest
unfolding drive_strings
strings-end part rest h = rw (h, drive_strings) refl

-- The drives that Windows lists are found, in order and with none left out: from a buffer in which
-- each name, of at least one character, ends with 0 and another 0 ends the list, the walk takes the
-- names, and what stands behind the end does not matter.
pub drive_strings-drive_buffer :
    (ds : List Text) (rest : List ℕ) → AllNames ds → drive_strings [] (drive_buffer ds rest) ≡ ds
unfolding drive_strings
drive_strings-drive_buffer [] rest h = refl
drive_strings-drive_buffer (d ∷ ds) rest (some_char, no_zero, all) =
    strings-word [] d (0 ∷ drive_buffer ds rest) no_zero
    ∙ strings-end d (drive_buffer ds rest) some_char
    ∙ ap (λ (r : List Text). d ∷ r) (drive_strings-drive_buffer ds rest all)
