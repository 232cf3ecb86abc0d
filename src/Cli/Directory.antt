-- ===== src/Cli/Directory.antt =====
-- The command `DIR` of cli_server/connection.cpp: the directory listing.
pub mod Drives
use foo_dsp_bfir.Base.{
  ℕ, Bool, true, false, Option, none, some, List, [], ◌∷◌, ◌++◌, if◌then◌else◌, ◌==◌, ◌&&◌, not,
  map,
}
use foo_dsp_bfir.Cli.Text.{Text, codes, ◌==ₜ◌, is_empty}
use foo_dsp_bfir.Cli.Reply.{status_error, reply_message}

-- `none` is a `filesystem_error`.
infixl 5 ◌>>=◌
abbrev pub ◌>>=◌ {ℓ κ} : {A : Type ℓ} {B : Type κ} → Option A → (A → Option B) → Option B
none >>= f = none
some a >>= f = f a

-- What the command calls: Boost.Filesystem (`none` where it throws), the Windows calls for the
-- attributes of a file (`none` for INVALID_FILE_ATTRIBUTES, else whether it is a system file) and for
-- the drives (`none` for a size that is not positive, else the buffer), the conversion of wide strings
-- by the C library in `util::wstr2str`, and json_spirit.
pub record FileSystem : Type 1 where
  pub FilePath : Type 0
  pub Json : Type 0
  pub path : Text → FilePath
  pub generic_string : FilePath → Text
  pub exists : FilePath → Option Bool
  pub is_regular_file : FilePath → Option Bool
  pub is_directory : FilePath → Option Bool
  pub entries : FilePath → Option (List FilePath)
  pub path_less : FilePath → FilePath → Bool
  pub parent_path : FilePath → FilePath
  pub filename : FilePath → FilePath
  pub quoted : FilePath → Text
  pub is_system : FilePath → Option Bool
  pub logical_drives : Option (List ℕ)
  pub wstr2str : List ℕ → Text
  pub ends_with : Text → Text → Bool
  pub json_text : Text → Json
  pub json_array : List Json → Json
  pub json_object : List (Text × Json) → Json
  pub write_formatted : Json → Text

-- The loop over the drive letters: strings that end with 0, up to an empty one. `part` is the
-- string so far. The strings are wide; `list_drives` converts each.
unfoldable pub drive_strings : Text → List ℕ → List Text
drive_strings part [] = []
drive_strings part (c ∷ cs) = elim (c == 0) [
  | true ↦ elim (is_empty part) [ true ↦ [] | false ↦ part ∷ drive_strings [] cs ]
  | false ↦ drive_strings (part ++ (c ∷ [])) cs
]

abbrev pub path_sub_root : Text
path_sub_root = codes "|"

module _ (fs : FileSystem) where
  open fs use {FilePath, Json}

  unfoldable pub insert_path : FilePath → List FilePath → List FilePath
  insert_path p [] = p ∷ []
  insert_path p (q ∷ qs) = if fs.path_less q p then q ∷ insert_path p qs else p ∷ q ∷ qs

  -- `std::sort`, here by insertion.
  unfoldable pub sort : List FilePath → List FilePath
  sort [] = []
  sort (p ∷ ps) = insert_path p (sort ps)

  -- An entry of a listing.
  unfoldable pub listed : Text → Text → Text → Json
  listed display name path_text = fs.json_object (
      (codes "display", fs.json_text display)
      ∷ (codes "name", fs.json_text name)
      ∷ (codes "path", fs.json_text path_text)
      ∷ [])

  unfoldable pub root_object : Text → List Json → List Json → Json
  root_object dir_text subdirs files = fs.json_object (
      (codes "dir", fs.json_text dir_text)
      ∷ (codes "subdir", fs.json_array subdirs)
      ∷ (codes "file", fs.json_array files)
      ∷ [])

  unfoldable pub list_names : List Text → List Json
  unfolding listed
  list_names [] = []
  list_names (d ∷ ds) = listed d d d ∷ list_names ds

  unfoldable pub list_drives : List ℕ → Text
  unfolding list_names drive_strings root_object
  list_drives buf =
      fs.write_formatted (root_object [] (list_names (map fs.wstr2str (drive_strings [] buf))) [])

  abbrev pub listed_entry : FilePath → Json
  unfolding listed
  listed_entry p =
      let name = fs.generic_string (fs.filename p) in listed name name (fs.generic_string p)

  -- The loop over the entries: the subdirectories and the files.
  unfoldable pub list_entries :
      List FilePath → List Json → List Json → Option (List Json × List Json)
  list_entries [] subdirs files = some (subdirs, files)
  list_entries (p ∷ ps) subdirs files = elim (fs.is_system p) [
    | none ↦ list_entries ps subdirs files
    | some true ↦ list_entries ps subdirs files
    | some false ↦ fs.is_regular_file p >>= λ regular. elim regular [
      | true ↦ list_entries ps subdirs (files ++ (listed_entry p ∷ []))
      | false ↦ fs.is_directory p >>= λ directory. elim directory [
        | true ↦ list_entries ps (subdirs ++ (listed_entry p ∷ [])) files
        | false ↦ list_entries ps subdirs files
      ]
    ]
  ]

  -- The entry for the parent directory, if there is one.
  unfoldable pub list_parent : FilePath → Option (List Json)
  unfolding listed
  list_parent dir =
      let parent = fs.parent_path dir in
      let where_to =
        if fs.ends_with (fs.generic_string parent) (codes ":")
        then path_sub_root
        else fs.generic_string parent in
      fs.exists parent >>= λ there.
      if there then some (listed (codes "[..]") (codes "..") where_to ∷ []) else some []

  unfoldable pub list_directory : FilePath → Option Text
  unfolding sort list_parent list_entries root_object
  list_directory dir = fs.entries dir >>= λ ps. list_parent dir >>= λ parent.
      list_entries (sort ps) parent [] >>= λ (subdirs, files).
      some (fs.write_formatted (root_object (fs.generic_string dir) subdirs files))

  -- The body of the `try`: the replies that it sends, and what it writes to `out`.
  unfoldable pub try_directory : Text → Text → Option (List Text × Text)
  unfolding list_directory list_drives
  try_directory default_dir arg =
      let dir_path = if is_empty arg then fs.path default_dir else fs.path arg in
      if fs.generic_string dir_path ==ₜ path_sub_root
      then elim fs.logical_drives [
        | none ↦ some (status_error ∷ [], [])
        | some buf ↦ some ([], list_drives buf)
      ]
      else (fs.exists dir_path >>= λ there.
          let dir = if there then dir_path else fs.path default_dir in
          fs.is_regular_file dir >>= λ regular.
          if regular
          then some ([], fs.quoted dir)
          else (fs.is_directory dir >>= λ directory.
              if directory
              then (list_directory dir >>= λ out. some ([], out))
              else some (status_error ∷ [], [])))

  -- The messages of the command. The last one is sent in any case.
  unfoldable pub handle_dir : Text → Text → List Text
  unfolding try_directory reply_message
  handle_dir default_dir arg = elim (try_directory default_dir arg) [
    | none ↦ reply_message status_error ∷ reply_message [] ∷ []
    | some (errors, out) ↦ map reply_message errors ++ (reply_message out ∷ [])
  ]
