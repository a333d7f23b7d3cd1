-- ===== src/Admin/Files.antt =====
-- `AdminClient::HandleFileLookup` of emulator/admin.cpp. A path is the list of its components; what
-- `std::filesystem` says is a parameter.
use gamespy_emulator.Admin.Api.{
  ok, not_found, internal_server_error, nothing, error, file, Outcome, exception, response,
}
use gamespy_emulator.Admin.Parse.{mime_type}
use gamespy_emulator.Game.Data.{Game}
use gamespy_emulator.Prelude.{
  Bool, true, false, not, ◌||◌, Option, none, some, Bytes, List, [], ◌∷◌, codes, if◌then◌else◌,
  equal,
}

abbrev pub FilePath : Type 0
FilePath = List Bytes

-- The directory of the files, resolved; a relative path resolved below it, and whether that fails;
-- whether a path exists, whether it opens, and its text. An absolute path stands for itself.
pub record Files : Type 0 where
  pub root : FilePath
  pub resolve : Bytes → FilePath × Bool
  pub exists : FilePath → Bool
  pub opens : FilePath → Bool
  pub text_of : FilePath → Bytes

-- `std::mismatch`: what is left of the first range.
unfoldable pub mismatch : FilePath → FilePath → FilePath
mismatch [] path = []
mismatch (r ∷ root) [] = r ∷ root
mismatch (r ∷ root) (p ∷ path) = if equal r p then mismatch root path else r ∷ root

abbrev pub is_nil : FilePath → Bool
is_nil [] = true
is_nil (p ∷ ps) = false

-- The relative path; none where `substr` throws.
abbrev pub relative : Bytes → Option Bytes
relative path =
    if equal path (codes "/")
    then some (codes "index.html")
    else elim path [ [] ↦ none | _ ∷ cs ↦ some cs ]

module _ (files : Files) (games : List Game) where
  unfoldable pub send_file : FilePath → Outcome
  send_file path =
      if not (files.exists path)
      then response games not_found nothing
      else if not (files.opens path)
      then response games internal_server_error (error (codes "failed to open file"))
      else response games ok (file path (mime_type (files.text_of path)))

  unfoldable pub look_up : FilePath × Bool → Outcome
  look_up (path, failed) =
      if failed || is_nil files.root || not (is_nil (mismatch files.root path))
      then response games not_found nothing
      else send_file path

  -- `HandleFileLookup`
  unfoldable pub handle_file_lookup : Bytes → Outcome
  handle_file_lookup path = elim (relative path) [
    | none ↦ exception games
    | some name ↦ look_up (files.resolve name)
  ]
