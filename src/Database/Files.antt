-- ===== src/Database/Files.antt =====
-- `FileDataBase` of src/db.rs: its directory, and a file copied there with its metadata. What std does
-- with paths and copying is a parameter; a path is its bytes.
pub mod Finds
use history_chain.Base.{
  Bytes, [], ◌∷◌, Option, none, some, Result, ok, err, panicked, HError, ◌>>=◌, bytes_eq,
  if◌then◌else◌,
}
use history_chain.Base.ByteDict.{ByteDict}
use history_chain.Database.Meta.{MetaData, save_meta_to_file}
use history_chain.Protocol.{Bincode}

pub record FileDataBase : Type 0 where
  pub uuid_list : ByteDict MetaData
  pub data_dir : Bytes
  pub bundle_file : Bytes

-- `PathBuf::push`, `Path::file_name`, `tokio::fs::copy`, with the content that it has copied, and the
-- opening of a file.
pub record FileSystem : Type 0 where
  pub push : Bytes → Bytes → Bytes
  pub file_name : Bytes → Option Bytes
  pub copy : Bytes → Bytes → Result Bytes
  pub open_file : Bytes → Result (Unit {0})

-- "bundle" and "meta"
abbrev bundle_name : Bytes
bundle_name = 98 ∷ 117 ∷ 110 ∷ 100 ∷ 108 ∷ 101 ∷ []

abbrev pub meta_name : Bytes
meta_name = 109 ∷ 101 ∷ 116 ∷ 97 ∷ []

dir_or : Result Bytes → Option Bytes → Result Bytes
dir_or current_dir none = current_dir
dir_or current_dir (some dir) = ok dir

-- The file of metadata behind a copy to this name beside it: a copy to its own name replaces it.
abbrev copied_over : Bytes → Bytes → Bytes → Bytes
copied_over name content file = if bytes_eq name meta_name then content else file

module _ (fs : FileSystem) where
  -- `FileDataBase::new`
  unfoldable file_data_base_new : Result Bytes → Option Bytes → Result FileDataBase
  unfolding dir_or
  file_data_base_new current_dir data_absolute_dir_opt = do
    data_dir ← dir_or current_dir data_absolute_dir_opt
    ok (record { uuid_list = []; data_dir = data_dir; bundle_file = fs.push data_dir bundle_name })

  -- `save_file` from the `?` behind the copy on.
  pub saved_copy :
      Bincode MetaData
      → FileDataBase
      → MetaData
      → Bytes
      → Bytes
      → Result Bytes
      → Result (Unit {0}) × Bytes
  saved_copy m db meta file name (ok content) =
      save_meta_to_file m (fs.open_file (fs.push db.data_dir meta_name)) meta
        (copied_over name content file)
  saved_copy m db meta file name (err e) = (err e, file)
  saved_copy m db meta file name panicked = (panicked, file)

  -- `save_file`, with the bytes of the file of metadata before and after it.
  pub save_file :
      Bincode MetaData → FileDataBase → Bytes → MetaData → Bytes → Result (Unit {0}) × Bytes
  unfolding saved_copy
  save_file m db file_path meta file = elim (fs.file_name file_path) [
    | none ↦ (err (HError.message "bad file_path, cab't get the the file"), file)
    | some name ↦ saved_copy m db meta file name (fs.copy file_path (fs.push db.data_dir name))
  ]
