-- ===== src/Tests/OfDatabase.antt =====
-- Metadata and chains saved and found.
use history_chain.Serializer.Decode.{frames}
use history_chain.Serializer.Writes.{serializer_new}
use history_chain.Database.Bundle.{Bundle, default_new, load_chains_from_bundle}
use history_chain.Database.Bundle.Loads.{load_chains_from_bundle-save_chains}
use history_chain.Serializer.ReadsAll.Short.{IsShort}
use history_chain.Base.{
  joined, ℕ, map, sym, ◌∙◌, be_bytes, length-replicate, Bytes, List, [], ◌∷◌, ◌++◌, ◌≡◌, ◌≢◌, refl,
  none, some, Result, ok, arith, length, take, drop, ltb, le→ltb, ◌==◌, if◌then◌else◌, All,
  bytes_eq,
}
use history_chain.Base.ByteDict.{ByteDict, get}
use history_chain.Block.Data
use history_chain.Block.Data.{DataBlock, data_block}
use history_chain.Chain.{BlockChain, origin, block_ref}
use history_chain.Database.Bundle.Describes.{Describes}
use history_chain.Database.Bundle.Saves.{
  IsSavable, save_chains, spans_of, save_chains-new, decode-save_chains,
}
use history_chain.Database.Files.{FileDataBase, FileSystem}
use history_chain.Database.Files.Finds.{IsCopied, save_files, saved_metas, find_meta-save_files}
use history_chain.Database.Meta.{MetaData, find_meta}
use history_chain.Database.Meta.Finds.{find_meta-some}
use history_chain.Database.Meta.Saved.{IsStored, last_with}
use history_chain.Protocol.{Bincode}
use history_chain.Serializer.{written, unexpected_end, decode_from_slice_with_header}
use history_chain.Tests.Fixtures.{sha, two_blocks, three_blocks}
use history_chain.Tests.Wire.{first_or_zero, read_bytes, read_bytes-IsReader}

abbrev encoded_meta : MetaData → Bytes
encoded_meta meta = meta.uuid ++ meta.name

abbrev meta_codec : Bincode MetaData
meta_codec = record {
  encode_into_slice = λ meta part. (
    written (length (encoded_meta meta)),
    encoded_meta meta ++ drop (length (encoded_meta meta)) part,
  );
  decode_from_slice = λ b. some (record { uuid = take 2 b; name = drop 2 b });
}

abbrev old_notes : MetaData
old_notes = record { name = 1 ∷ []; uuid = 5 ∷ 6 ∷ [] }

abbrev new_notes : MetaData
new_notes = record { name = 2 ∷ 2 ∷ []; uuid = 5 ∷ 6 ∷ [] }

abbrev letter : MetaData
letter = record { name = []; uuid = 8 ∷ 8 ∷ [] }

abbrev metas : List MetaData
metas = old_notes ∷ letter ∷ new_notes ∷ []

metas-IsStored : All (IsStored meta_codec encoded_meta) metas
metas-IsStored = (
  record { short = omega arith; coded = record { fits = λ part room. refl; reads = refl } },
  (
    record { short = omega arith; coded = record { fits = λ part room. refl; reads = refl } },
    (record { short = omega arith; coded = record { fits = λ part room. refl; reads = refl } }, tt),
  ),
)

-- What it finds is what was saved last.
last_with_notes : last_with (5 ∷ 6 ∷ []) metas none ≡ some new_notes
unfolding bytes_eq
last_with_notes = refl

find_meta-some_example :
    (find_meta meta_codec read_bytes (ok (0 ∷ 0 ∷ 0 ∷ 9 ∷ 1 ∷ [])) (5 ∷ 6 ∷ []) [] ≢ none)
    × ((◌≢◌ {A = ByteDict MetaData} [] [])
        → find_meta meta_codec read_bytes (ok (0 ∷ 0 ∷ 0 ∷ 9 ∷ 1 ∷ [])) (5 ∷ 6 ∷ []) []
          ≡ some (get (5 ∷ 6 ∷ []) [], []))
find_meta-some_example =
    find_meta-some read_bytes-IsReader meta_codec (ok (0 ∷ 0 ∷ 0 ∷ 9 ∷ 1 ∷ [])) (5 ∷ 6 ∷ []) []

abbrev encoded_chain : BlockChain DataBlock → Bytes
encoded_chain chain = length chain.blocks ∷ []

abbrev chain_codec : Bincode (BlockChain DataBlock)
chain_codec = record {
  encode_into_slice = λ chain part.
      if ltb (length part) 1
      then (unexpected_end, part)
      else (written 1, encoded_chain chain ++ drop 1 part);
  decode_from_slice = λ b. if first_or_zero b == 2 then some two_blocks else some three_blocks;
}

abbrev chains : List (BlockChain DataBlock)
chains = two_blocks ∷ three_blocks ∷ []

chains-IsSavable : All (IsSavable (data_block sha) chain_codec encoded_chain) chains
unfolding origin block_ref Data.genesis Data.create
chains-IsSavable = (
  record {
    start = 10;
    starts = refl;
    in_time = omega arith;
    short = omega arith;
    coded = record { fits = λ part room. rw (le→ltb (length part) 1 room) refl; reads = refl };
  },
  (
    record {
      start = 10;
      starts = refl;
      in_time = omega arith;
      short = omega arith;
      coded = record { fits = λ part room. rw (le→ltb (length part) 1 room) refl; reads = refl };
    },
    tt,
  ),
)

decode-save_chains_example :
    (decode_from_slice_with_header chain_codec.decode_from_slice
        ((save_chains (data_block sha) chain_codec encoded_chain chains (default_new [], [])).1)
      ≡ some (ok chains))
    × Describes
        ((save_chains (data_block sha) chain_codec encoded_chain chains (default_new [], [])).0)
        (spans_of (data_block sha) chain_codec encoded_chain chains chains-IsSavable [])
decode-save_chains_example =
    decode-save_chains (data_block sha) chain_codec encoded_chain [] chains chains-IsSavable
      (omega arith)

-- Three reads of the file of the two chains.
abbrev reads : List Bytes
reads = (0 ∷ 0 ∷ 0 ∷ []) ∷ (1 ∷ 2 ∷ 0 ∷ 0 ∷ 0 ∷ []) ∷ (1 ∷ 3 ∷ []) ∷ []

abbrev other_bundle : Bundle DataBlock
other_bundle = default_new (1 ∷ [])

reads-frames : joined reads ≡ frames (map encoded_chain chains)
unfolding joined be_bytes
reads-frames = refl

reads-whole :
    joined reads
    ≡ (save_chains (data_block sha) chain_codec encoded_chain chains (default_new [], [])).1
reads-whole =
    reads-frames
    ∙ sym (
        (save_chains-new (data_block sha) chain_codec encoded_chain [] chains chains-IsSavable
          (omega arith)).0)

long_buffer : length other_bundle.serializer.buffer ≡ 131072
unfolding default_new serializer_new
long_buffer = length-replicate {A = ℕ} 131072 0

reads-IsShort : All (IsShort (length other_bundle.serializer.buffer)) reads
reads-IsShort =
    let long = long_buffer in
    (
      (omega arith, omega (arith, long), omega arith),
      (
        (omega arith, omega (arith, long), omega arith),
        ((omega arith, omega (arith, long), omega arith), tt),
      ),
    )

load_chains_from_bundle-save_chains_example :
    (load_chains_from_bundle chain_codec.decode_from_slice (ok tt) other_bundle reads).0
    ≡ some (ok chains)
load_chains_from_bundle-save_chains_example =
    load_chains_from_bundle-save_chains (data_block sha) chain_codec encoded_chain [] chains
      chains-IsSavable other_bundle reads (omega arith) reads-whole reads-IsShort

-- Two files are saved, with metadata of one UUID.
abbrev disk : FileSystem
disk = record {
  push = λ dir name. dir ++ (47 ∷ name);
  file_name = λ path. some path;
  copy = λ source target. ok (3 ∷ []);
  open_file = λ path. ok tt;
}

abbrev database : FileDataBase
database = record { uuid_list = []; data_dir = 47 ∷ []; bundle_file = [] }

abbrev two_files : List (Bytes × MetaData)
two_files = (1 ∷ [], old_notes) ∷ (2 ∷ [], new_notes) ∷ []

two_files-IsCopied : All (λ r. IsCopied disk meta_codec database (r.0)) two_files
unfolding bytes_eq
two_files-IsCopied = (
  record { name = 1 ∷ []; content = 3 ∷ []; named = refl; other_name = refl; copied = refl },
  (record { name = 2 ∷ []; content = 3 ∷ []; named = refl; other_name = refl; copied = refl }, tt),
)

two_files-IsStored :
    All (IsStored meta_codec encoded_meta) (saved_metas disk meta_codec database two_files)
two_files-IsStored = (metas-IsStored.0, (metas-IsStored.1.1.0, tt))

find_meta-save_files_example :
    (cache : ByteDict MetaData) × (find_meta meta_codec read_bytes
        (ok (save_files disk meta_codec database two_files []))
        (5 ∷ 6 ∷ [])
        []
      ≡ some (last_with (5 ∷ 6 ∷ []) (old_notes ∷ new_notes ∷ []) none, cache))
    × ((file : Result Bytes) (later : Bytes)
        → find_meta meta_codec read_bytes file later cache
          ≡ some (last_with later (old_notes ∷ new_notes ∷ []) none, cache))
find_meta-save_files_example =
    find_meta-save_files disk meta_codec database refl encoded_meta read_bytes-IsReader (1 ∷ [])
      old_notes ((2 ∷ [], new_notes) ∷ []) (5 ∷ 6 ∷ []) two_files-IsCopied two_files-IsStored
