-- ===== src/Faker.antt =====
-- The generators of src/utils/utils.rs, on which the repository's tests of whole chains stand. The
-- clock's times, the random hashes and the new UUIDs are functions of the round.
pub mod Builds
pub mod Grows
use history_chain.Base.{
  ℕ, zero, suc, ◌*◌, ◌/◌, ◌%◌, ◌^◌, Bytes, List, [], ◌∷◌, Result, ok, err, panicked, HError, ◌>>=◌,
  ◌>>◌, err_if, unwrap, leb, as_u32, sub_u64, Bool,
}
use history_chain.Block.{Block}
use history_chain.Block.Data
use history_chain.Block.Data.{DataBlock, DataBlockArgs, data_block}
use history_chain.Chain
use history_chain.Chain.{BlockChain, ChainLimit, add, block_ref, origin, time_check}
use history_chain.Block.Digest.{DigestBlock}
use history_chain.Keeper.{ChainKeeper}
use history_chain.Executor.{ChainExecutor, executor_new, executor_add_chain}

-- What the rounds of `faker_data_chain` take from outside.
pub record World : Type 0 where
  pub now : ℕ → ℕ
  pub random_hash : ℕ → Bytes
  pub uuid_new : ℕ → Bytes

-- `chain.add(block)?`
pub added : {S : Type 0} → Result (Unit {0}) × S → Result S
added (ok u, chain) = ok chain
added (err e, chain) = err e
added (panicked, chain) = panicked

module _ (sha256 : Bytes → Bytes) where
  -- The block of round i, behind the block before it.
  pub faker_block : World → ℕ → ℕ → DataBlock → DataBlock
  faker_block world digest_id i pre_block = Data.create sha256 (world.now (suc i)) (record {
    prev_hash = pre_block.hash;
    data_hash = world.random_hash i;
    data_uuid = world.uuid_new i;
    digest_id = digest_id;
    index = as_u32 i;
  })

  -- The rounds of the loop over `0..len - 1` from round i on, with the number of those left.
  pub faker_rounds :
      World → ℕ → ChainLimit → ℕ → ℕ → ℕ → BlockChain DataBlock → Result (BlockChain DataBlock)
  unfolding faker_block added
  faker_rounds world digest_id limit time_origin i zero chain = ok chain
  faker_rounds world digest_id limit time_origin i (suc left) chain = do
    pre_block ← unwrap (block_ref chain i)
    let block = faker_block world digest_id i pre_block
    time_check (data_block sha256) limit time_origin block
    chain' ← added (add (data_block sha256) chain block)
    faker_rounds world digest_id limit time_origin (suc i) left chain'

  -- `len - 1` wraps at zero; the genesis block is made at the time of round zero.
  pub faker_data_chain : World → ℕ → ℕ → ℕ → Result (BlockChain DataBlock)
  unfolding faker_rounds
  faker_data_chain world len digest_id time_gap = do
    let limit : ChainLimit = record { max_len = len; time_gap = time_gap }
    let chain = Chain.new (data_block sha256) (world.now 0) digest_id limit
    time_origin ← unwrap (origin (data_block sha256) chain)
    faker_rounds world digest_id limit time_origin 0 (sub_u64 len 1) chain

  -- The rounds of `faker_data_chains_vector` from round i on; `len_rate` and `gap_rate` are the random
  -- rates of a round.
  unfoldable pub faker_vector :
      (ℕ → World) → (ℕ → ℕ) → (ℕ → ℕ) → ℕ → ℕ → ℕ → ℕ → Result (List (BlockChain DataBlock))
  faker_vector worlds len_rate gap_rate chain_max_len max_time_gap i zero = ok []
  faker_vector worlds len_rate gap_rate chain_max_len max_time_gap i (suc left) = do
    chain ←
        faker_data_chain (worlds i) (len_rate i * chain_max_len % 2 ^ 64 / 100) (as_u32 i)
          (gap_rate i * max_time_gap % 2 ^ 64 / 100)
    chains ← faker_vector worlds len_rate gap_rate chain_max_len max_time_gap (suc i) left
    ok (chain ∷ chains)

  -- The rounds of `faker_executor` on the executor's keeper; the digest block of a round is made at
  -- its time.
  pub executor_rounds :
      (ℕ → World)
      → (ℕ → ℕ)
      → ChainLimit
      → ℕ
      → ℕ
      → ChainKeeper DataBlock DigestBlock
      → Result (ChainKeeper DataBlock DigestBlock)
  unfolding added
  executor_rounds worlds times limit i zero keeper = ok keeper
  executor_rounds worlds times limit i (suc left) keeper = do
    chain ← faker_data_chain (worlds i) limit.max_len (as_u32 (suc i)) limit.time_gap
    keeper' ← added (executor_add_chain sha256 (times i) keeper chain)
    executor_rounds worlds times limit (suc i) left keeper'

  pub faker_executor : (ℕ → World) → (ℕ → ℕ) → ℕ → ℕ → ℕ → ChainLimit → Result ChainExecutor
  unfolding executor_rounds
  faker_executor worlds times now now' main_len limit = do
    err_if (leb limit.max_len main_len) (HError.chain "the main_len is exceeded the limitation")
    let executor = executor_new sha256 now now' limit
    keeper ← executor_rounds worlds times limit 0 (sub_u64 main_len 1) executor.keeper
    ok (record executor { keeper = keeper })
