-- ===== src/Tests/OfChain.antt =====
-- Chains, and references into them.
use history_chain.Base.{
  ℕ, ◌≤◌, ◌<◌, max, be_bytes, bytes_eq, add_u64, [], ◌∷◌, ◌≡◌, ◌≢◌, ◌⊎◌, ◌↔◌, refl, ok, none, some,
  arith, length,
}
use history_chain.Block
use history_chain.Block.{zero_hash, zero_uuid}
use history_chain.Block.Verify.{Accepts}
use history_chain.Block.Binding.OfData.{IsDataWf, data_hashed}
use history_chain.Block.Data
use history_chain.Block.Data.{DataBlock, data_block, data_carrier}
use history_chain.Chain
use history_chain.Chain.{
  BlockChain, ChainLimit, add, push, verify, get_block_by_hash, get_block_by_data_hash,
  get_block_by_data_uuid,
}
use history_chain.Chain.Linked.{IsVerified}
use history_chain.Chain.Verify.{verify_iff}
use history_chain.Chain.Add.{add_lem, Built, start, extend, verify-Built}
use history_chain.Chain.Tamper.{ClashIn, verify_binds}
use history_chain.Chain.Ref.{ChainRef, from_chain_by_index, as_slice, ref_block_ref}
use history_chain.Chain.Ref.Segment.{
  in_range, from_chain_by_index_segment, from_chain_by_index_behind,
}
use history_chain.Tests.Fixtures.{
  sha, small_limit, genesis_block, second_block, third_block, two_blocks, three_blocks, two_verify,
  three_verify,
}

verify_iff_example :
    (verify (data_block sha) three_blocks ≡ ok tt) ↔ IsVerified (data_block sha) three_blocks
verify_iff_example = verify_iff (data_block sha) three_blocks

add_lem_example :
    ((add (data_block sha) two_blocks third_block ≡ (ok tt, push two_blocks third_block))
      × (2 < 4)
      × Accepts (data_block sha) (genesis_block.timestamp) 100 (second_block.hash) third_block)
    ⊎ (((add (data_block sha) two_blocks third_block).0 ≢ ok tt)
        × ((add (data_block sha) two_blocks third_block).1 ≡ two_blocks)
        × ¬ (
            (2 < 4)
            × Accepts
                (data_block sha)
                (genesis_block.timestamp)
                100
                (second_block.hash)
                third_block))
add_lem_example = add_lem (data_block sha) genesis_block (second_block ∷ []) small_limit third_block

abbrev grown : BlockChain DataBlock
grown = (add (data_block sha) (Chain.new (data_block sha) 10 1 small_limit) second_block).1

grown_Built : Built (data_block sha) grown
unfolding add Chain.new Chain.block_verify Chain.last_block_ref Chain.origin Chain.block_ref
    Chain.is_full Block.verify Block.hash_verify Block.time_verify Data.genesis Data.create
    Data.hash_block Data.preimage be_bytes bytes_eq add_u64
grown_Built = extend _ second_block (start 10 1 small_limit) refl

grown_length : 2 ≤ length grown.blocks
unfolding add push Chain.new Chain.block_verify Chain.last_block_ref Chain.origin Chain.block_ref
    Chain.is_full Block.verify Block.hash_verify Block.time_verify Data.genesis Data.create
    Data.hash_block Data.preimage be_bytes bytes_eq add_u64
grown_length = omega arith

verify-Built_example :
    (verify (data_block sha) grown ≡ ok tt) × (length grown.blocks ≤ max 1 grown.limit.max_len)
verify-Built_example = verify-Built (data_block sha) {chain = grown} grown_Built grown_length

second_IsDataWf : IsDataWf second_block
unfolding Data.genesis Data.create Data.hash_block Data.preimage be_bytes
second_IsDataWf = record {
  timestamp = omega arith;
  prev_hash = refl;
  data_hash = refl;
  data_uuid = refl;
  digest_id = omega arith;
  index = omega arith;
}

verify_binds_example :
    ((genesis_block.hash ≡ genesis_block.hash) × ((second_block ∷ []) ≡ (second_block ∷ [])))
    ⊎ ClashIn (data_hashed sha) (second_block ∷ []) (second_block ∷ [])
unfolding data_hashed
verify_binds_example =
    verify_binds (data_hashed sha) genesis_block genesis_block (second_block ∷ [])
      (second_block ∷ []) two_blocks two_blocks refl refl refl (second_IsDataWf, tt)
      (second_IsDataWf, tt) two_verify two_verify refl

from_chain_by_index_segment_example :
    (r : ChainRef DataBlock) × (from_chain_by_index (data_block sha) three_blocks 1 7 ≡ ok r)
    × (as_slice r ≡ some (in_range (data_block sha) 1 7 three_blocks.blocks))
unfolding Data.genesis Data.create
from_chain_by_index_segment_example =
    from_chain_by_index_segment (data_block sha) genesis_block (second_block ∷ third_block ∷ [])
      small_limit 1 7 three_verify (omega arith) (refl, (refl, (refl, tt))) (omega arith)
      (omega arith) (omega arith) (omega arith)

from_chain_by_index_behind_example :
    (r : ChainRef DataBlock) × (from_chain_by_index (data_block sha) three_blocks 5 7 ≡ ok r)
    × (0 < r.len)
    × (as_slice r ≡ none)
    × ((i : ℕ) → ref_block_ref r i ≡ none)
unfolding Data.genesis Data.create
from_chain_by_index_behind_example =
    from_chain_by_index_behind (data_block sha) genesis_block (second_block ∷ third_block ∷ [])
      small_limit 5 7 three_verify (omega arith) (omega arith) (omega arith) (omega arith)
