-- ===== src/Tests/OfBlock.antt =====
-- Blocks and Merkle roots.
use history_chain.Base.{be_bytes, [], map, ◌≡◌, ◌⊎◌, refl, ok, err, HError}
use history_chain.Block.Data
use history_chain.Block.Data.{DataBlock, data_block}
use history_chain.Hash.{merkle_root}
use history_chain.Hash.Binding.{LoopClash, merkle_root_binds}
use history_chain.Hash.Merkle.{Tree, digest, leaves, merkle_root-Tree}
use history_chain.Tests.Fixtures.{
  sha, length-sha, genesis_block, three_blocks, other_three, three_root, other_root,
}

merkle_root-Tree_example :
    ((three_blocks.blocks ≡ [])
      × (merkle_root sha (data_block sha) three_blocks ≡ err (HError.chain "the chain is empty")))
    ⊎ ((t : Tree) × (merkle_root sha (data_block sha) three_blocks ≡ ok (digest sha t))
        × (leaves t ≡ map (λ b. b.hash) three_blocks.blocks))
merkle_root-Tree_example = merkle_root-Tree sha (data_block sha) three_blocks

merkle_root_binds_example :
    (map (λ b. b.hash) three_blocks.blocks ≡ map (λ b. b.hash) other_three.blocks)
    ⊎ LoopClash sha 3 (map (λ b. b.hash) three_blocks.blocks) (map (λ b. b.hash) other_three.blocks)
unfolding Data.genesis Data.create Data.hash_block Data.preimage be_bytes
merkle_root_binds_example =
    merkle_root_binds sha length-sha (data_block sha) three_blocks other_three (genesis_block.hash)
      refl (refl, (refl, (refl, tt))) (refl, (refl, (refl, tt))) three_root other_root
