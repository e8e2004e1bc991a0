-- ===== src/Executor.antt =====
-- `ChainExecutor` of src/executor.rs, with `DataBlock` and `DigestBlock`, the only blocks that carry
-- data and that digest. The locks around the keeper and the buffer make each method one step.
pub mod AddBlock
pub mod AddChain
pub mod Keeps
pub mod Partial
pub mod Reaches
pub mod Commits
pub mod Binds
use history_chain.Base.{
  ℕ, ◌+◌, ◌-◌, Bytes, Result, ok, err, panicked, HError, ◌>>=◌, unwrap, Option, none, some, as_u32,
  add_u64, if◌then◌else◌,
}
use history_chain.Block.{Block}
use history_chain.Block.Data
use history_chain.Block.Data.{DataBlock, DataBlockArgs, data_block}
use history_chain.Block.Digest
use history_chain.Block.Digest.{DigestBlock, DigestBlockArgs, digest_block}
use history_chain.Chain
use history_chain.Chain.{BlockChain, ChainLimit, block_ref, last_block_ref, len}
use history_chain.Chain.Stores.{Main, Sides, add_block, sides_add_chain}
use history_chain.Hash.{merkle_root}
use history_chain.Hash.Files.{archive_slice}
use history_chain.Keeper.{ChainKeeper, keeper_new, keeper_is_full}

pub record ChainExecutor : Type 0 where
  pub keeper : ChainKeeper DataBlock DigestBlock
  pub chain_buf : BlockChain DataBlock

module _ (sha256 : Bytes → Bytes) where
  -- `ChainExecutor::new`, at the clock's times of the two genesis blocks.
  unfoldable pub executor_new : ℕ → ℕ → ChainLimit → ChainExecutor
  executor_new now now' limit = record {
    keeper = keeper_new (digest_block sha256) now limit;
    chain_buf = Chain.new (data_block sha256) now' 1 limit;
  }

  -- `add_block` returns the block that it makes; it does not put it into the buffer.
  pub executor_add_block : ℕ → Bytes → ChainExecutor → Bytes → Result DataBlock
  unfolding archive_slice
  executor_add_block now uuid executor content = do
    let data_id = archive_slice sha256 uuid content
    let chain = executor.chain_buf
    pre_block ← unwrap (block_ref chain (len chain - 1))
    let index = add_u64 pre_block.index 1
    let digest_id = add_u64 pre_block.digest_id 1
    let args : DataBlockArgs = record {
      prev_hash = pre_block.hash;
      data_hash = data_id.hash;
      data_uuid = data_id.uuid;
      digest_id = as_u32 digest_id;
      index = as_u32 index;
    }
    ok (Data.create sha256 now args)

  -- The digest block that `add_chain` puts behind `last_digest`.
  unfoldable pub next_digest : ℕ → DigestBlock → Bytes → BlockChain DataBlock → DigestBlock
  next_digest now last_digest merkle_root chain = Digest.create sha256 now (record {
    prev_hash = last_digest.hash;
    merkle_root = merkle_root;
    length = as_u32 (len chain);
    digest_id = as_u32 (as_u32 last_digest.digest_id + 1);
  })

  -- What follows the write to the main chain at the end of `add_chain`.
  unfoldable pub store_side :
      Sides DataBlock
      → ℕ
      → BlockChain DataBlock
      → Result (Unit {0}) × Main DigestBlock
      → Result (Unit {0}) × ChainKeeper DataBlock DigestBlock
  store_side sides digest_id chain (ok u, main) =
      let (kept, sides') = sides_add_chain (data_block sha256) sides digest_id chain in
      (kept, record { main = main; sides = sides' })
  store_side sides digest_id chain (err e, main) = (err e, record { main = main; sides = sides })
  store_side sides digest_id chain (panicked, main) =
      (panicked, record { main = main; sides = sides })

  -- The two writes at the end of `add_chain`: to the main chain, then to the sides.
  store_chain :
      ChainKeeper DataBlock DigestBlock
      → DigestBlock
      → BlockChain DataBlock
      → Result (Unit {0}) × ChainKeeper DataBlock DigestBlock
  unfolding store_side
  store_chain keeper block chain =
      store_side keeper.sides block.digest_id chain
        (add_block (digest_block sha256) keeper.main block)

  -- `add_chain` from the `?` behind `D::digest` on.
  digest_chain :
      ℕ
      → ChainKeeper DataBlock DigestBlock
      → BlockChain DataBlock
      → DigestBlock
      → Result Bytes
      → Result (Unit {0}) × ChainKeeper DataBlock DigestBlock
  unfolding next_digest store_chain
  digest_chain now keeper chain last_digest (ok merkle_root) =
      store_chain keeper (next_digest now last_digest merkle_root chain) chain
  digest_chain now keeper chain last_digest (err e) = (err e, keeper)
  digest_chain now keeper chain last_digest panicked = (panicked, keeper)

  -- `add_chain`, on the keeper behind the lock.
  pub executor_add_chain :
      ℕ
      → ChainKeeper DataBlock DigestBlock
      → BlockChain DataBlock
      → Result (Unit {0}) × ChainKeeper DataBlock DigestBlock
  unfolding digest_chain
  executor_add_chain now keeper chain =
      if keeper_is_full keeper
      then (err (HError.executor "The keeper is full, can't add a new chain."), keeper)
      else elim (last_block_ref keeper.main.chain) [
        | none ↦ (panicked, keeper)
        | some last_digest ↦
            digest_chain now keeper chain last_digest (merkle_root sha256 (data_block sha256) chain)
      ]
