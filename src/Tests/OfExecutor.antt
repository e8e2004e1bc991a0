-- ===== src/Tests/OfExecutor.antt =====
-- The executor and its keeper.
use history_chain.Base.{◌+◌, ◌^◌, ◌≤◌, ◌<◌, Bytes, add_u64, [], ◌≡◌, ◌≢◌, ◌⊎◌, ok, arith, as_u32}
use history_chain.Base.Dict.{insert}
use history_chain.Block.Data
use history_chain.Block.Data.{DataBlock, data_block}
use history_chain.Block.Digest
use history_chain.Block.Digest.{DigestBlock, digest_block}
use history_chain.Hash.{merkle_root}
use history_chain.Keeper.{ChainKeeper}
use history_chain.Executor.{ChainExecutor, executor_add_chain, next_digest}
use history_chain.Executor.AddChain.{keeper_from, with_digest, Stores, executor_add_chain_lem}
use history_chain.Executor.Keeps.{IsSoundKeeper}
use history_chain.Executor.Partial.{add_chain_accepts}
use history_chain.Tests.Fixtures.{
  sha, small_limit, genesis_block, second_block, two_blocks, three_blocks, three_verify,
  first_digest,
}

abbrev keeper : ChainKeeper DataBlock DigestBlock
keeper = keeper_from first_digest [] small_limit []

keeper_IsSound : IsSoundKeeper sha keeper
keeper_IsSound = record { main = record { linked = tt; fits = omega arith }; sides = tt }

executor_add_chain_lem_example :
    ((root : Bytes) × (merkle_root sha (data_block sha) three_blocks ≡ ok root)
      × Stores first_digest [] small_limit [] sha three_blocks
          (next_digest sha 20 first_digest root three_blocks)
          (executor_add_chain sha 20 keeper three_blocks))
    ⊎ (((executor_add_chain sha 20 keeper three_blocks).0 ≢ ok tt)
        × ((executor_add_chain sha 20 keeper three_blocks).1 ≡ keeper))
executor_add_chain_lem_example =
    executor_add_chain_lem first_digest [] small_limit [] sha 20 three_blocks

early : first_digest.timestamp ≤ 20
unfolding Digest.genesis Digest.create
early = omega arith

late : 20 ≤ add_u64 first_digest.timestamp 100
unfolding Digest.genesis Digest.create add_u64
late = omega arith

add_chain_accepts_example :
    (d : DigestBlock) × (executor_add_chain sha 20 keeper three_blocks
      ≡ (ok tt, with_digest first_digest [] small_limit [] d (insert d.digest_id three_blocks [])))
    × (d.length ≡ as_u32 3)
    × (d.digest_id ≡ as_u32 (as_u32 1 + 1))
unfolding Digest.genesis Digest.create
add_chain_accepts_example =
    add_chain_accepts sha first_digest [] small_limit [] 20 three_blocks (omega arith) early late
      three_verify

abbrev executor : ChainExecutor
executor = record { keeper = keeper; chain_buf = two_blocks }

early_block : genesis_block.timestamp ≤ 40
unfolding Data.genesis Data.create
early_block = omega arith

late_block : 40 ≤ add_u64 genesis_block.timestamp 100
unfolding Data.genesis Data.create add_u64
late_block = omega arith

small_index : second_block.index + 1 < 2 ^ 32
unfolding Data.create
small_index = omega arith
