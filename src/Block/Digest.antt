-- ===== src/Block/Digest.antt =====
-- `DigestBlock` and `DigestBlockArgs` of src/block.rs.
use history_chain.Base.{ℕ, Bytes, ◌≡◌, refl, ◌++◌, be_bytes}
use history_chain.Block.{Block, zero_hash}

pub record DigestBlockArgs : Type 0 where
  pub prev_hash : Bytes
  pub merkle_root : Bytes
  pub length : ℕ
  pub digest_id : ℕ

pub record DigestBlock : Type 0 where
  pub hash : Bytes
  pub digest_id : ℕ
  pub timestamp : ℕ
  pub prev_hash : Bytes
  pub merkle_root : Bytes
  pub length : ℕ

-- The bytes that `hash_block` feeds to the hasher.
unfoldable pub preimage : DigestBlock → Bytes
preimage b =
    be_bytes 8 b.timestamp
    ++ (b.prev_hash ++ (b.merkle_root ++ (be_bytes 4 b.length ++ be_bytes 4 b.digest_id)))

module _ (sha256 : Bytes → Bytes) where
  unfoldable pub hash_block : DigestBlock → Bytes
  hash_block b = sha256 (preimage b)

  -- `private_new`, which `create` calls with the fields of its argument.
  unfoldable pub create : ℕ → DigestBlockArgs → DigestBlock
  unfolding hash_block
  create now args =
      let block : DigestBlock = record {
        hash = zero_hash;
        digest_id = args.digest_id;
        timestamp = now;
        prev_hash = args.prev_hash;
        merkle_root = args.merkle_root;
        length = args.length;
      } in
      record block { hash = hash_block block }

  unfoldable pub genesis : ℕ → ℕ → DigestBlock
  genesis now digest_id =
      create now (record {
        prev_hash = zero_hash;
        merkle_root = zero_hash;
        length = 1;
        digest_id = digest_id;
      })

  -- `impl Block for DigestBlock`: the index is the digest id.
  abbrev pub digest_block : Block DigestBlock
  digest_block = record {
    prev_hash = λ b. b.prev_hash;
    hash = λ b. b.hash;
    index = λ b. b.digest_id;
    digest_id = λ b. b.digest_id;
    timestamp = λ b. b.timestamp;
    genesis = genesis;
    hash_block = hash_block;
  }

module _ (sha256 : Bytes → Bytes) where
  -- A block that is created carries the digest of its own fields.
  pub create-hashed :
      (now : ℕ) (args : DigestBlockArgs)
      → (create sha256 now args).hash ≡ hash_block sha256 (create sha256 now args)
  unfolding create preimage
  create-hashed now args = refl
