-- ===== src/Tests/Fixtures.antt =====
-- A hash function with digests of 32 bytes, and a chain of three data blocks under it.
use history_chain.Base.{
  ℕ, Bytes, [], ◌∷◌, ◌++◌, add_u64, ◌≡◌, ◌∙◌, refl, ok, arith, length, take, length-take,
  length-append, be_bytes,
}
use history_chain.Block.{zero_hash, zero_uuid}
use history_chain.Block.Verify.{Accepts}
use history_chain.Block.Data
use history_chain.Block.Data.{DataBlock, DataBlockArgs, data_block, data_carrier}
use history_chain.Block.Digest
use history_chain.Block.Digest.{DigestBlock, digest_block}
use history_chain.Chain.{BlockChain, ChainLimit, verify}
use history_chain.Hash.{hash_neighbor, merkle_loop, merkle_root}
use history_chain.Chain.Add.{IsSound}
use history_chain.Chain.Verify.{verify_iff}

-- The first 32 bytes, with zeros behind those of a shorter string.
abbrev pub sha : Bytes → Bytes
sha x = take 32 (x ++ zero_hash)

pub length-sha : (x : Bytes) → length (sha x) ≡ 32
length-sha x = length-take 32 (x ++ zero_hash) ∙ omega (arith, length-append x zero_hash)

abbrev pub small_limit : ChainLimit
small_limit = record { max_len = 4; time_gap = 100 }

abbrev pub genesis_block : DataBlock
genesis_block = Data.genesis sha 10 1

abbrev pub next_args : DataBlock → ℕ → DataBlockArgs
next_args before index = record {
  prev_hash = before.hash;
  data_hash = zero_hash;
  data_uuid = zero_uuid;
  digest_id = 1;
  index = index;
}

abbrev pub second_block : DataBlock
second_block = Data.create sha 20 (next_args genesis_block 1)

abbrev pub third_block : DataBlock
third_block = Data.create sha 30 (next_args second_block 2)

abbrev pub two_blocks : BlockChain DataBlock
two_blocks = record { blocks = genesis_block ∷ second_block ∷ []; limit = small_limit }

abbrev pub three_blocks : BlockChain DataBlock
three_blocks = record {
  blocks = genesis_block ∷ second_block ∷ third_block ∷ [];
  limit = small_limit;
}

second_Accepts : Accepts (data_block sha) 10 100 (genesis_block.hash) second_block
unfolding Data.create add_u64
second_Accepts = record {
  hashed = Data.create-hashed sha 20 (next_args genesis_block 1);
  not_before = omega arith;
  not_after = omega arith;
  linked = refl;
}

third_Accepts : Accepts (data_block sha) 10 100 (second_block.hash) third_block
unfolding Data.create add_u64
third_Accepts = record {
  hashed = Data.create-hashed sha 30 (next_args second_block 2);
  not_before = omega arith;
  not_after = omega arith;
  linked = refl;
}

pub two_verify : verify (data_block sha) two_blocks ≡ ok tt
unfolding Data.genesis Data.create
two_verify = (verify_iff (data_block sha) two_blocks).1 (second_Accepts, tt)

pub three_verify : verify (data_block sha) three_blocks ≡ ok tt
unfolding Data.genesis Data.create
three_verify = (verify_iff (data_block sha) three_blocks).1 (second_Accepts, (third_Accepts, tt))

two_IsSound : IsSound (data_block sha) two_blocks
unfolding Data.genesis Data.create
two_IsSound = record { linked = (second_Accepts, tt); fits = omega arith }

abbrev pub first_digest : DigestBlock
first_digest = Digest.genesis sha 10 1

-- Another chain of three blocks with the same Merkle root.
abbrev pub other_three : BlockChain DataBlock
other_three = record {
  blocks = genesis_block ∷ second_block ∷ Data.create sha 40 (next_args second_block 2) ∷ [];
  limit = small_limit;
}

pub three_root : merkle_root sha (data_block sha) three_blocks ≡ ok (genesis_block.hash)
unfolding merkle_root merkle_loop hash_neighbor Data.genesis Data.create Data.hash_block
    Data.preimage be_bytes
three_root = refl

pub other_root : merkle_root sha (data_block sha) other_three ≡ ok (genesis_block.hash)
unfolding merkle_root merkle_loop hash_neighbor Data.genesis Data.create Data.hash_block
    Data.preimage be_bytes
other_root = refl

other_Accepts :
    Accepts
      (data_block sha)
      10
      100
      (second_block.hash)
      (Data.create sha 40 (next_args second_block 2))
unfolding Data.create add_u64
other_Accepts = record {
  hashed = Data.create-hashed sha 40 (next_args second_block 2);
  not_before = omega arith;
  not_after = omega arith;
  linked = refl;
}

pub other_verify : verify (data_block sha) other_three ≡ ok tt
unfolding Data.genesis Data.create
other_verify = (verify_iff (data_block sha) other_three).1 (second_Accepts, (other_Accepts, tt))
