-- ===== src/Database/Meta.antt =====
-- `MetaData`, `MetaDataIterator` and `FileDataBase::find_meta` of src/db.rs.
pub mod Finds
pub mod Saved
use history_chain.Base.{
  ℕ, zero, suc, ◌+◌, ◌-◌, ◌*◌, Bytes, [], ◌++◌, Option, none, some, Result, ok, err, panicked,
  HError, ◌>>=◌, ◌>>◌, length, take, drop, replicate, ltb, ◌==◌, if◌then◌else◌, bytes_eq, be_bytes,
  from_be, as_u32,
}
use history_chain.Base.ByteDict.{ByteDict, get, set}
use history_chain.Protocol.{Bincode, Reader, size_or, value_or}

pub record MetaData : Type 0 where
  pub name : Bytes
  pub uuid : Bytes

abbrev max_file_name_len : ℕ
max_file_name_len = 128

-- `MetaData::set_name`, which takes the metadata.
unfoldable pub set_name : MetaData → Bytes → Result MetaData
set_name meta name =
    if ltb max_file_name_len (length name)
    then err (HError.message "the file's name is too long")
    else ok (record meta { name = name })

abbrev set_uuid : MetaData → Bytes → MetaData
set_uuid meta uuid = record meta { uuid = uuid }

pub record MetaDataIterator : Type 0 where
  pub file_stream : Bytes
  pub current_pos : ℕ
  pub end_pos : ℕ

-- `MetaDataIterator::new`, on a file that is open.
abbrev pub iterator_new : Bytes → MetaDataIterator
iterator_new file = record { file_stream = file; current_pos = 0; end_pos = length file }

reset : MetaDataIterator → MetaDataIterator
reset it = record it { current_pos = 0 }

-- The size before the written bytes, and both behind the file's.
written_meta : Result ℕ → Bytes → Bytes → Result (Unit {0}) × Bytes
written_meta (ok size) rest file = (ok tt, file ++ take (size + 4) (be_bytes 4 size ++ rest))
written_meta (err e) rest file = (err e, file)
written_meta panicked rest file = (panicked, file)

-- The body of the loop of `find_meta`; `rest` is the rest of the loop.
gather_round :
    Bytes
    → Option (Result MetaData × MetaDataIterator)
    → Option MetaData
    → ByteDict MetaData
    → (MetaDataIterator
        → Option MetaData
        → ByteDict MetaData
        → Option (Option MetaData × ByteDict MetaData))
    → Option (Option MetaData × ByteDict MetaData)
gather_round uuid none result uuid_list rest = some (result, uuid_list)
gather_round uuid (some (ok meta, it)) result uuid_list rest =
    rest it (if bytes_eq meta.uuid uuid then some meta else result) (set meta.uuid meta uuid_list)
gather_round uuid (some (err e, it)) result uuid_list rest = some (result, uuid_list)
gather_round uuid (some (panicked, it)) result uuid_list rest = some (result, uuid_list)

module _ (m : Bincode MetaData) where
  encode_into : MetaData → Bytes → Result ℕ × Bytes
  encode_into meta buffer =
      let (result, buffer') = m.encode_into_slice meta buffer in
      (size_or (HError.message "error in encode_into of MetaData: {}") result, buffer')

  decode_from : Bytes → Result MetaData
  decode_from buffer =
      value_or (HError.message "error in decode_from of MetaData: {}") (m.decode_from_slice buffer)

  -- The buffer of 256 bytes is written behind its first four; `opened` is what `open` returns.
  pub save_meta_to_file : Result (Unit {0}) → MetaData → Bytes → Result (Unit {0}) × Bytes
  unfolding encode_into written_meta
  save_meta_to_file opened meta file =
      let (result, rest) = encode_into meta (replicate (max_file_name_len * 2 - 4) 0) in
      written_meta (result >>= λ size. (opened >> ok (as_u32 size))) rest file

  module _ (reader : Reader Bytes) where
    get_one_meta_from_file : Bytes → Result ((MetaData × ℕ) × Bytes)
    unfolding decode_from
    get_one_meta_from_file file_stream = do
      (size_bytes, stream) ← reader 4 file_stream
      (meta_bytes, stream') ← reader (from_be 0 size_bytes) stream
      meta ← decode_from meta_bytes
      ok ((meta, from_be 0 size_bytes), stream')

    -- After an error the stream's position is not said.
    next_of :
        MetaDataIterator → Result ((MetaData × ℕ) × Bytes) → Result MetaData × MetaDataIterator
    unfolding reset
    next_of it (ok ((meta, size), stream)) =
        (ok meta, record it { file_stream = stream; current_pos = it.current_pos + (size + 4) })
    next_of it (err e) = (err e, reset it)
    next_of it panicked = (panicked, it)

    next : MetaDataIterator → Option (Result MetaData × MetaDataIterator)
    unfolding get_one_meta_from_file next_of
    next it =
        if it.current_pos == it.end_pos
        then none
        else some (next_of it (get_one_meta_from_file it.file_stream))

    -- The loop of `find_meta` with an empty cache: what it returns, and the cache. `none` is a loop
    -- that runs out of fuel.
    gather :
        ℕ
        → Bytes
        → MetaDataIterator
        → Option MetaData
        → ByteDict MetaData
        → Option (Option MetaData × ByteDict MetaData)
    unfolding next gather_round
    gather zero uuid it result uuid_list = none
    gather (suc fuel) uuid it result uuid_list =
        gather_round uuid (next it) result uuid_list
          (λ it' result' uuid_list'. gather fuel uuid it' result' uuid_list')

    -- `file` is what opening the file of metadata returns. Each round of the loop takes a size
    -- off the file, so that a round for each byte and one more are enough.
    pub find_meta :
        Result Bytes → Bytes → ByteDict MetaData → Option (Option MetaData × ByteDict MetaData)
    unfolding gather
    find_meta (ok file) uuid uuid_list =
        if length uuid_list == 0
        then gather (suc (length file)) uuid (iterator_new file) none uuid_list
        else some (get uuid uuid_list, uuid_list)
    find_meta (err e) uuid uuid_list =
        some (if length uuid_list == 0 then (none, uuid_list) else (get uuid uuid_list, uuid_list))
    find_meta panicked uuid uuid_list =
        some (if length uuid_list == 0 then (none, uuid_list) else (get uuid uuid_list, uuid_list))
