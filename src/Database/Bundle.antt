-- ===== src/Database/Bundle.antt =====
-- `Bundle` of src/db.rs, a file of chains with a description of them in memory. The file is its
-- bytes; opening it, and bincode's encoding of a chain, are parameters.
pub mod Describes
pub mod Saves
pub mod Loads
pub mod Overwrites
use history_chain.Base.{
  ℕ, suc, ◌+◌, ◌-◌, ◌%◌, ◌^◌, Bytes, List, [], ◌∷◌, min, max, Option, none, some, Result, ok, err,
  panicked, HError, ◌>>=◌, ◌>>◌, err_if, not, drop, ◌++◌, length, take, ltb, ◌==◌, if◌then◌else◌,
  add_u64, sub_u64,
}
use history_chain.Block.{Block}
use history_chain.Chain.{BlockChain, origin, gap}
use history_chain.Serializer.{Encoded, encode_vec_into}
use history_chain.Serializer.ReadsAll.{decode_from_asyncread}
use history_chain.Serializer.Writes.{Serializer, serializer_new, set_data, save_into_asyncwrite}

pub record Bundle (B : Type 0) : Type 0 where
  pub serializer : Serializer (BlockChain B)
  pub counter : ℕ
  pub origin : ℕ
  pub time_gap : ℕ
  pub path : Bytes

-- `Bundle::default_new`, with the default path.
unfoldable pub default_new : {B : Type 0} → Bytes → Bundle B
default_new path = record {
  serializer = serializer_new none;
  counter = 0;
  origin = 0;
  time_gap = 0;
  path = path;
}

-- The branches of `update_description_with_chain` for a chain with an origin.
pub add_span : {B : Type 0} → Bundle B → ℕ → ℕ → Bundle B
add_span bundle start time_gap =
    let time_max = max (add_u64 bundle.origin bundle.time_gap) (add_u64 start time_gap) in
    let start' = min bundle.origin start in
    if bundle.counter == 0
    then record bundle { origin = start; time_gap = time_gap; counter = 1 }
    else record bundle {
      origin = start';
      time_gap = sub_u64 time_max start';
      counter = (bundle.counter + 1) % 2 ^ 32;
    }

module _ {B : Type 0} (k : Block B) where
  pub update_description_with_chain : Bundle B → BlockChain B → Result (Unit {0}) × Bundle B
  unfolding add_span
  update_description_with_chain bundle chain = elim (origin k chain) [
    | none ↦ (ok tt, bundle)
    | some start ↦ (ok tt, add_span bundle start (gap chain))
  ]

  module _ (encode_into_slice : BlockChain B → Bytes → Encoded × Bytes) where
    -- The chain goes through the serializer, which gives it back.
    took_back :
        Bundle B
        → Result ℕ × (Serializer (BlockChain B) × Bytes)
        → Result (BlockChain B) × (Bundle B × Bytes)
    took_back bundle (ok n, (serializer, stream)) = elim (serializer.datum) [
      | none ↦ (
        err (HError.message "serializer take data failed"),
        (record bundle { serializer = serializer }, stream),
      )
      | some self_back ↦ (
        ok self_back,
        (record bundle { serializer = record serializer { datum = none } }, stream),
      )
    ]
    took_back bundle (err e, (serializer, stream)) =
        (err e, (record bundle { serializer = serializer }, stream))
    took_back bundle (panicked, (serializer, stream)) =
        (panicked, (record bundle { serializer = serializer }, stream))

    encode_to_stream : Bundle B → BlockChain B → Bytes → Result (BlockChain B) × (Bundle B × Bytes)
    unfolding took_back
    encode_to_stream bundle chain stream =
        took_back bundle
          (save_into_asyncwrite encode_into_slice (set_data chain bundle.serializer) stream)

    -- After the update of the description; on its error the file is cut at `save_pos`.
    described :
        ℕ
        → BlockChain B
        → Result (Unit {0}) × Bundle B
        → Bytes
        → Result (BlockChain B) × (Bundle B × Bytes)
    described save_pos chain (ok u, bundle) file = (ok chain, (bundle, file))
    described save_pos chain (err e, bundle) file = (err e, (bundle, take save_pos file))
    described save_pos chain (panicked, bundle) file = (panicked, (bundle, file))

    saved :
        ℕ → Result (BlockChain B) × (Bundle B × Bytes) → Result (BlockChain B) × (Bundle B × Bytes)
    unfolding described
    saved save_pos (ok chain, (bundle, file)) =
        described save_pos chain (update_description_with_chain bundle chain) file
    saved save_pos (err e, (bundle, file)) = (err e, (bundle, file))
    saved save_pos (panicked, (bundle, file)) = (panicked, (bundle, file))

    -- `opened` is what opening the file for appending returns.
    pub save_to_file :
        Result (Unit {0})
        → ℕ
        → Bundle B
        → BlockChain B
        → Bytes
        → Result (BlockChain B) × (Bundle B × Bytes)
    unfolding encode_to_stream saved
    save_to_file (ok u) save_pos bundle chain file =
        saved save_pos (encode_to_stream bundle chain file)
    save_to_file (err e) save_pos bundle chain file = (err e, (bundle, file))
    save_to_file panicked save_pos bundle chain file = (panicked, (bundle, file))

-- `opened` is what opening the bundle's file returns, and `reads` what its reads return.
loaded :
    {B : Type 0}
    → Bundle B
    → Option (Result (List (BlockChain B))) × Bytes
    → Option (Result (List (BlockChain B))) × Bundle B
loaded bundle (result, buffer) =
    (result, record bundle { serializer = record bundle.serializer { buffer = buffer } })

pub load_chains_from_bundle :
    {B : Type 0}
    → (Bytes → Option (BlockChain B))
    → Result (Unit {0})
    → Bundle B
    → List Bytes
    → Option (Result (List (BlockChain B))) × Bundle B
unfolding loaded
load_chains_from_bundle decode (ok u) bundle reads =
    loaded bundle (decode_from_asyncread decode bundle.serializer.buffer reads)
load_chains_from_bundle decode (err e) bundle reads = (some (err e), bundle)
load_chains_from_bundle decode panicked bundle reads = (some panicked, bundle)

-- The one `write` of `save_chains_to_bundle`, at the file's start, and the test behind it. The file is
-- not cut.
pub written_over : Result ℕ → ℕ → Bytes → Bytes → Result ℕ × Bytes
written_over (ok nwrite) size bytes file = (
  err_if (not (nwrite == size)) (HError.message "write error in function ssave_chains_to_bundle")
      >> ok size,
  take nwrite bytes ++ drop nwrite file,
)
written_over (err e) size bytes file = (err e, file)
written_over panicked size bytes file = (panicked, file)

-- After an error of the encoding, what stands in the buffer is not said.
pub encoded_all :
    {B : Type 0}
    → Result (Unit {0})
    → (Bytes → Result ℕ)
    → Bundle B
    → Bytes
    → Option (Result (ℕ × Bytes))
    → Option (Result ℕ × (Bundle B × Bytes))
unfolding written_over
encoded_all opened write bundle file none = none
encoded_all opened write bundle file (some (ok (size, buffer))) =
    let bytes = take size buffer in
    let (result, file') = written_over (opened >> write bytes) size bytes file in
    some
      (result, (record bundle { serializer = record bundle.serializer { buffer = buffer } }, file'))
encoded_all opened write bundle file (some (err e)) = some (err e, (bundle, file))
encoded_all opened write bundle file (some panicked) = some (panicked, (bundle, file))

-- `write` says how many of the bytes one `write` takes; the fuel is that of `encode_vec_into`.
pub save_chains_to_bundle :
    {B : Type 0}
    → (BlockChain B → Bytes → Encoded × Bytes)
    → ℕ
    → Result (Unit {0})
    → (Bytes → Result ℕ)
    → Bundle B
    → List (BlockChain B)
    → Bytes
    → Option (Result ℕ × (Bundle B × Bytes))
unfolding encoded_all
save_chains_to_bundle encode_into_slice fuel opened write bundle chains file =
    encoded_all opened write bundle file
      (encode_vec_into encode_into_slice fuel chains bundle.serializer.buffer)
