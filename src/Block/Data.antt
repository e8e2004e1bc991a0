-- ===== src/Block/Data.antt =====
-- `DataBlock` and `DataBlockArgs` of src/block.rs. SHA-256 is the parameter `sha256`; the digest
-- of several `update`s is that of the joined bytes.
use history_chain.Base.{ℕ, Bytes, ◌≡◌, refl, ◌++◌, be_bytes}
use history_chain.Block.{Block, Carrier, zero_hash, zero_uuid}

pub record DataBlockArgs : Type 0 where
  pub prev_hash : Bytes
  pub data_hash : Bytes
  pub data_uuid : Bytes
  pub digest_id : ℕ
  pub index : ℕ

pub record DataBlock : Type 0 where
  pub hash : Bytes
  pub timestamp : ℕ
  pub prev_hash : Bytes
  pub data_hash : Bytes
  pub data_uuid : Bytes
  pub digest_id : ℕ
  pub index : ℕ

-- The bytes that `hash_block` feeds to the hasher.
unfoldable pub preimage : DataBlock → Bytes
preimage b =
    be_bytes 8 b.timestamp
    ++ (b.prev_hash
        ++ (b.data_hash ++ (b.data_uuid ++ (be_bytes 4 b.digest_id ++ be_bytes 4 b.index))))

module _ (sha256 : Bytes → Bytes) where
  unfoldable pub hash_block : DataBlock → Bytes
  hash_block b = sha256 (preimage b)

  -- `private_new`, which `create` calls with the fields of its argument.
  unfoldable pub create : ℕ → DataBlockArgs → DataBlock
  unfolding hash_block
  create now args =
      let block : DataBlock = record {
        hash = zero_hash;
        timestamp = now;
        prev_hash = args.prev_hash;
        data_hash = args.data_hash;
        data_uuid = args.data_uuid;
        digest_id = args.digest_id;
        index = args.index;
      } in
      record block { hash = hash_block block }

  unfoldable pub genesis : ℕ → ℕ → DataBlock
  genesis now digest_id = create now (record {
    prev_hash = zero_hash;
    data_hash = zero_hash;
    data_uuid = zero_uuid;
    digest_id = digest_id;
    index = 0;
  })

  -- `impl Block for DataBlock` and `impl Carrier for DataBlock`.
  abbrev pub data_block : Block DataBlock
  data_block = record {
    prev_hash = λ b. b.prev_hash;
    hash = λ b. b.hash;
    index = λ b. b.index;
    digest_id = λ b. b.digest_id;
    timestamp = λ b. b.timestamp;
    genesis = genesis;
    hash_block = hash_block;
  }

  abbrev pub data_carrier : Carrier DataBlock
  data_carrier = record {
    block = data_block;
    data_hash = λ b. b.data_hash;
    data_uuid = λ b. b.data_uuid;
  }

module _ (sha256 : Bytes → Bytes) where
  -- A block that is created carries the digest of its own fields.
  pub create-hashed :
      (now : ℕ) (args : DataBlockArgs)
      → (create sha256 now args).hash ≡ hash_block sha256 (create sha256 now args)
  unfolding create preimage
  create-hashed now args = refl
