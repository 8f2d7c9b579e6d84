-- ===== src/Deletion/Files.antt =====
-- be/schema/picfile.go, be/schema/pic.go and the end of the tasks: which files a deletion removes. `join`
-- is `filepath.Join`, `remove` what the task removes a file with.
use pixur.Base.{
  ℕ, ◌-◌, false, Option, none, some, List, [], ◌∷◌, ◌++◌, length, take, map, ◌==◌, if◌then◌else◌,
}
use pixur.Base.Result.{Result, ok, err}
use pixur.Varint.{encode}
use pixur.Schema.{Time, Pic, Configuration}
use pixur.Job.{Status, invalid_argument, data_loss, Action, ◌>>=◌, require_none, revert}
use pixur.Auth.{authed_job}
use pixur.Deletion.{hard_delete_job, purge_job}

abbrev pub FilePath : Type 0
FilePath = List ℕ

-- `picFileMimeExt`
unfoldable pub mime_ext : ℕ → Option (List ℕ)
mime_ext mime =
    if mime == 1
    then some (b'.' ∷ b'j' ∷ b'p' ∷ b'g' ∷ [])
    else if mime == 2
    then some (b'.' ∷ b'g' ∷ b'i' ∷ b'f' ∷ [])
    else if mime == 3
    then some (b'.' ∷ b'p' ∷ b'n' ∷ b'g' ∷ [])
    else if mime == 4
    then some (b'.' ∷ b'w' ∷ b'e' ∷ b'b' ∷ b'm' ∷ [])
    else if mime == 5
    then some (b'.' ∷ b'm' ∷ b'p' ∷ b'4' ∷ [])
    else none

module _ {E : Type 0} (remove : FilePath → Option E) where
  -- One removal, and its error.
  abbrev pub remove_file : Result (Status E) FilePath → Option (Status E)
  remove_file (err st) = some st
  remove_file (ok path) = elim (remove path) [ none ↦ none | some e ↦ some data_loss ]

  -- The removals. Their errors are deferred, so that the last of them is returned.
  unfoldable pub remove_files : List (Result (Status E) FilePath) → Option (Status E)
  remove_files [] = none
  remove_files (path ∷ paths) = elim (remove_files paths) [
    | some st ↦ some st
    | none ↦ remove_file path
  ]

module _ (join : List FilePath → FilePath) (pix_path : FilePath) where
  -- `PicBaseDir`: a directory for each symbol of the id but the last.
  unfoldable pub pic_base_dir : ℕ → FilePath
  pic_base_dir id =
      let vid = encode id in join (pix_path ∷ map (λ c. c ∷ []) (take (length vid - 1) vid))

  -- `PicFilePath`
  unfoldable pub pic_file_path : {E : Type 0} → ℕ → ℕ → Result (Status E) FilePath
  pic_file_path pic_id mime = elim (mime_ext mime) [
    | none ↦ err invalid_argument
    | some ext ↦ ok (join (pic_base_dir pic_id ∷ (encode pic_id ++ ext) ∷ []))
  ]

  -- `PicFileDerivedPath`
  unfoldable pub pic_file_derived_path : {E : Type 0} → ℕ → ℕ → ℕ → Result (Status E) FilePath
  pic_file_derived_path pic_id index mime = elim (mime_ext mime) [
    | none ↦ err invalid_argument
    | some ext ↦ ok (join (pic_base_dir pic_id ∷ ((encode pic_id ++ encode index) ++ ext) ∷ []))
  ]

  -- The file of a picture and its thumbnails.
  unfoldable pub pic_paths : {E : Type 0} → Pic → List (Result (Status E) FilePath)
  pic_paths p =
      pic_file_path p.pic_id p.file.mime
      ∷ map (λ th. pic_file_derived_path p.pic_id th.index th.mime) p.thumbnail

  module _ {E : Type 0} (remove : FilePath → Option E) where
    -- `HardDeletePicTask.Run`
    unfoldable pub hard_delete : Configuration → Time → Option (ℕ × ℕ) → ℕ → Action E (Unit {0})
    hard_delete conf now tok pic_id = do
      u ← authed_job now false tok
      p ← revert (hard_delete_job conf now pic_id u)
      require_none (remove_files remove (pic_paths p))

    -- `PurgePicTask.Run`
    unfoldable pub purge : Configuration → Time → Option (ℕ × ℕ) → ℕ → Action E (Unit {0})
    purge conf now tok pic_id = do
      u ← authed_job now false tok
      p ← revert (purge_job conf now pic_id u)
      require_none (remove_files remove (pic_paths p))
