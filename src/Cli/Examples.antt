-- ===== src/Cli/Examples.antt =====
-- Data for the tests of the models of cli_server/: an environment in which a number is written with
-- one character behind its sign, and a file system with one directory.
use foo_dsp_bfir.Base.{
  ℕ, ◌+◌, ◌-◌, ◌≡◌, refl, sym, ap, ◌∙◌, arith, leb, ◌&&◌, ◌==◌, if◌then◌else◌, ℤ, pos, negsuc, Bool,
  true, false, Option, none, some, List, [], ◌∷◌, ◌++◌, map, append-nil, append_assoc,
}
use foo_dsp_bfir.Cli.Text.{Text, codes, ◌==ₜ◌, is_empty}
use foo_dsp_bfir.Cli.Settings.{Settings, FileSettings}
use foo_dsp_bfir.Cli.Directory.{FileSystem}
use foo_dsp_bfir.Cli.Connection.{Environment, join}
use foo_dsp_bfir.Cli.Connection.Bands.{HasNoComma, AllWritten, SplitsCommas}

abbrev pub one_directory : FileSystem
one_directory = record {
  FilePath = Text;
  Json = Text;
  path = λ t. t;
  generic_string = λ p. p;
  exists = λ p. some (p ==ₜ codes "d");
  is_regular_file = λ p. some false;
  is_directory = λ p. if p ==ₜ codes "x" then none else some true;
  entries = λ p. some [];
  path_less = λ p q. false;
  parent_path = λ p. [];
  filename = λ p. p;
  quoted = λ p. p;
  is_system = λ p. none;
  logical_drives = none;
  wstr2str = λ d. d;
  ends_with = λ p q. false;
  json_text = λ t. t;
  json_array = λ js. [];
  json_object = λ js. [];
  write_formatted = λ j. codes "{}";
}

abbrev upper : ℕ → ℕ
upper c = if leb 97 c && leb c 122 then c - 32 else c

abbrev prefix : Text → Text → Bool
prefix t [] = true
prefix [] (p ∷ ps) = false
prefix (c ∷ t) (p ∷ ps) = (c == p) && prefix t ps

abbrev pub read_digit : Text → Option ℤ
read_digit [] = none
read_digit (c ∷ []) = if leb 48 c then some (pos (c - 48)) else none
read_digit (s ∷ c ∷ t) = if s == 45 then some (negsuc (c - 48)) else none

abbrev pub write_digit : ℤ → Text
write_digit (pos n) = (n + 48) ∷ []
write_digit (negsuc n) = 45 ∷ (n + 48) ∷ []

abbrev pub split_at_commas : Text → Text → List Text
split_at_commas part [] = part ∷ []
split_at_commas part (c ∷ cs) = elim (c == 44) [
  | true ↦ part ∷ split_at_commas [] cs
  | false ↦ split_at_commas (part ++ (c ∷ [])) cs
]

abbrev pub digits : Environment
digits = record {
  to_upper = map upper;
  starts_with = prefix;
  parse_int = read_digit;
  show_int = write_digit;
  split = split_at_commas [];
  exists = λ t. if t ==ₜ codes "bad" then none else some true;
  calculate_attenuation = λ t.
      some
        (record { level = negsuc 30; n_channels = pos 2; n_frames = pos 5; sampling_rate = pos 4 });
  fs = one_directory;
  default_dir = codes "d";
}

split-word :
    (part m rest : Text)
    → HasNoComma m
    → split_at_commas part (m ++ rest) ≡ split_at_commas (part ++ m) rest
split-word part [] rest h = rw append-nil refl
split-word part (c ∷ cs) rest h =
    let no : (c == 44) ≡ false = ground (arith, h.0) in
    rw (no, split_at_commas)
      (split-word (part ++ (c ∷ [])) cs rest h.1 ∙ rw (append_assoc part (c ∷ []) cs) refl)

split_at_commas-join :
    (m : Text) (ms : List Text) → AllWritten (m ∷ ms) → split_at_commas [] (join (m ∷ ms)) ≡ m ∷ ms
unfolding join
split_at_commas-join m [] all =
    ap (split_at_commas []) (sym (append-nil m)) ∙ split-word [] m [] all.1
split_at_commas-join m (n ∷ ms) all =
    split-word [] m (codes "," ++ join (n ∷ ms)) all.1
    ∙ ap (λ (r : List Text). m ∷ r) (split_at_commas-join n ms all.2)

written_digit : (v : ℤ) → (is_empty (write_digit v) ≡ false) × HasNoComma (write_digit v)
written_digit (pos n) = (refl, (λ e. absurd (omega arith), tt))
written_digit (negsuc n) = (refl, (λ e. absurd (omega arith), (λ e. absurd (omega arith), tt)))

pub digits-SplitsCommas : SplitsCommas digits
digits-SplitsCommas = record {
  split-join = λ m ms all. split_at_commas-join m ms all;
  written = λ v. written_digit v;
}

abbrev pub some_file : FileSettings
some_file = record {
  enable = pos 1;
  level = negsuc 9;
  filename = codes "a.wav";
  metadata = codes "m";
}

abbrev pub some_settings : Settings
some_settings = record {
  eq_enable = pos 0;
  eq_level = pos 5;
  eq_mag = codes "1,2,3";
  file1 = some_file;
  file2 = some_file;
  file3 = some_file;
}
