-- ===== src/Database/Files/Finds.antt =====
-- What `find_meta` of a `FileDataBase` finds after calls of `save_file`, with an empty cache and with
-- the cache that it has filled.
use history_chain.Base.{
  Bytes, List, [], ◌∷◌, map, All, ◌≡◌, ◌≢◌, ◌∙◌, refl, sym, ap, none, some, Result, ok, false,
  bytes_eq, bytes_eq→eq, Bool-cases, inl, inr, bytes_eq_refl,
}
use history_chain.Base.ByteDict.{ByteDict, get, set, get-set, get-set_ne}
use history_chain.Database.Files.{FileDataBase, FileSystem, meta_name, saved_copy, save_file}
use history_chain.Database.Meta.{MetaData, save_meta_to_file, find_meta}
use history_chain.Database.Meta.Finds.{find_meta-some}
use history_chain.Database.Meta.Saved.{IsStored, save_all, last_with, set_all, find_meta-save_all}
use history_chain.Protocol.{Bincode, Reader}
use history_chain.Protocol.Streams.{IsReader}

-- A table that is filled by all of the metadata answers with the last one.
get-set_all :
    (uuid : Bytes) (metas : List MetaData) (list : ByteDict MetaData)
    → get uuid (set_all metas list) ≡ last_with uuid metas (get uuid list)
get-set_all uuid [] list = refl
get-set_all uuid (meta ∷ metas) list =
    get-set_all uuid metas (set meta.uuid meta list)
    ∙ ap (last_with uuid metas) (elim (Bool-cases (bytes_eq meta.uuid uuid)) [
      | inl same ↦ rw (same, sym (bytes_eq→eq meta.uuid uuid same)) (get-set meta.uuid meta list)
      | inr other ↦ rw other (
          get-set_ne meta.uuid uuid meta list
            (λ e. cc (other, bytes_eq_refl uuid, ap (λ u. bytes_eq u uuid) e)))
    ])

set-filled : (uuid : Bytes) (meta : MetaData) (list : ByteDict MetaData) → set uuid meta list ≢ []
set-filled uuid meta [] e = cc
set-filled uuid meta ((j, w) ∷ list) e = elim (Bool-cases (bytes_eq j uuid)) [
  | inl same ↦ let it = rw same at e in cc
  | inr other ↦ let it = rw other at e in cc
]

set_all-filled :
    (metas : List MetaData) (list : ByteDict MetaData) → list ≢ [] → set_all metas list ≢ []
set_all-filled [] list filled = filled
set_all-filled (meta ∷ metas) list filled =
    set_all-filled metas (set meta.uuid meta list) (set-filled meta.uuid meta list)

module _ (fs : FileSystem) (m : Bincode MetaData) (db : FileDataBase) where
  -- The file of metadata after calls of `save_file`, one after the other.
  abbrev pub save_files : List (Bytes × MetaData) → Bytes → Bytes
  save_files [] file = file
  save_files ((path, meta) ∷ requests) file =
      save_files requests ((save_file fs m db path meta file).1)

  -- The file has a name, which is not that of the file of metadata, and is copied.
  pub record IsCopied (path : Bytes) : Type 0 where
    pub name : Bytes
    pub content : Bytes
    pub named : fs.file_name path ≡ some name
    pub other_name : bytes_eq name meta_name ≡ false
    pub copied : fs.copy path (fs.push db.data_dir name) ≡ ok content

  abbrev pub saved_metas : List (Bytes × MetaData) → List MetaData
  saved_metas requests = map (λ r. r.1) requests

  module _ (opened : fs.open_file (fs.push db.data_dir meta_name) ≡ ok tt) where
    save_file-copied :
        (path : Bytes) (meta : MetaData) (file : Bytes)
        → IsCopied path
        → save_file fs m db path meta file ≡ save_meta_to_file m (ok tt) meta file
    unfolding save_file saved_copy
    save_file-copied path meta file c = rw (c.named, c.copied, c.other_name, opened, save_file) refl

    save_files-save_all :
        (requests : List (Bytes × MetaData)) (file : Bytes)
        → All (λ r. IsCopied (r.0)) requests
        → save_files requests file ≡ save_all m (saved_metas requests) file
    save_files-save_all [] file c = refl
    save_files-save_all ((path, meta) ∷ requests) file c =
        ap (λ r. save_files requests (r.1)) (save_file-copied path meta file (c.0))
        ∙ save_files-save_all requests _ (c.1)

    -- Over a reader of files and a codec, with encodings of at most 252 bytes: after calls of
    -- `save_file` of one file or more, into an empty file of metadata, each for a file that is copied under
    -- another name than that file's, `find_meta` with an empty cache returns the last metadata saved with
    -- the UUID, or none if there is none, and leaves a cache. With that cache `find_meta` returns, for every
    -- UUID and whatever the file holds by then, the last metadata that these calls have saved with it: what
    -- is saved later is not found.
    pub find_meta-save_files :
        (enc : MetaData → Bytes) {reader : Reader Bytes}
        → IsReader reader (λ s. s)
        → (path : Bytes) (meta : MetaData) (requests : List (Bytes × MetaData)) (uuid : Bytes)
        → let all = (path, meta) ∷ requests in
          let metas = saved_metas all in
          All (λ r. IsCopied (r.0)) all
          → All (IsStored m enc) metas
          → (cache : ByteDict MetaData) × (find_meta m reader (ok (save_files all [])) uuid []
              ≡ some (last_with uuid metas none, cache))
            × ((file : Result Bytes) (later : Bytes)
                → find_meta m reader file later cache ≡ some (last_with later metas none, cache))
    find_meta-save_files enc {reader} law path meta requests uuid copied stored =
        let all = (path, meta) ∷ requests in
        let metas = saved_metas all in
        (
          set_all metas [],
          ap (λ f. find_meta m reader (ok f) uuid []) (save_files-save_all all [] copied)
              ∙ find_meta-save_all m enc law uuid metas stored,
          (λ file later.
              (find_meta-some law m file later (set_all metas [])).1
                (set_all-filled (saved_metas requests) (set meta.uuid meta []) (λ e. cc))
              ∙ ap (λ o. some (o, set_all metas [])) (get-set_all later metas [])),
        )
