-- ===== src/Executor/AddBlock.antt =====
-- The block that `Executor::add_block` makes.
use history_chain.Base.{
  ℕ, ◌+◌, ◌≤◌, ◌<◌, ◌^◌, as_u32-fits, add_u64-fits, Bytes, List, ◌∷◌, ◌≡◌, refl, ok, arith, last,
  as_u32, add_u64, ◌∙◌,
}
use history_chain.Block.Verify.{Accepts, Accepts→verify}
use history_chain.Block.Data
use history_chain.Block.Data.{DataBlock, data_block}
use history_chain.Chain.{block_verify}
use history_chain.Chain.Add.{block_verify-eq, block_ref-last, chain-eq}
use history_chain.Executor.{ChainExecutor, executor_add_block}

module _ (sha256 : Bytes → Bytes) (executor : ChainExecutor) (x : DataBlock)
    (bs : List DataBlock) where
  -- The last block is found, so that a block is made.
  made :
      (now : ℕ) (uuid content : Bytes)
      → executor.chain_buf.blocks ≡ (x ∷ bs)
      → executor_add_block sha256 now uuid executor content
        ≡ ok (
            Data.create sha256 now (record {
              prev_hash = (last x bs).hash;
              data_hash = sha256 content;
              data_uuid = uuid;
              digest_id = as_u32 (add_u64 (last x bs).digest_id 1);
              index = as_u32 (add_u64 (last x bs).index 1);
            }))
  unfolding executor_add_block
  made now uuid content e =
      let limit = executor.chain_buf.limit in
      rw (chain-eq (data_block sha256) x bs limit executor.chain_buf e refl)
        (rw (block_ref-last (data_block sha256) x bs limit) refl)

  -- On a buffer that has its origin, `add_block` always makes a block. If the clock stands within
  -- the buffer's time, the buffer accepts the block: it passes `block_verify`. Its index is one
  -- more than that of the last block, as long as that fits 32 bits, and it carries the content's
  -- digest and the new UUID.
  executor_add_block_lem :
      (now : ℕ) (uuid content : Bytes)
      → executor.chain_buf.blocks ≡ (x ∷ bs)
      → x.timestamp ≤ now
      → now ≤ add_u64 x.timestamp executor.chain_buf.limit.time_gap
      → (last x bs).index + 1 < 2 ^ 32
      → (b : DataBlock) × (executor_add_block sha256 now uuid executor content ≡ ok b)
        × (block_verify (data_block sha256) executor.chain_buf b ≡ ok tt)
        × (b.index ≡ (last x bs).index + 1)
        × (b.data_hash ≡ sha256 content)
        × (b.data_uuid ≡ uuid)
  unfolding Data.create
  executor_add_block_lem now uuid content e early late small =
      let k = data_block sha256 in
      let limit = executor.chain_buf.limit in
      let block : DataBlock = Data.create sha256 now (record {
        prev_hash = (last x bs).hash;
        data_hash = sha256 content;
        data_uuid = uuid;
        digest_id = as_u32 (add_u64 (last x bs).digest_id 1);
        index = as_u32 (add_u64 (last x bs).index 1);
      }) in
      let accepted : Accepts k x.timestamp limit.time_gap (last x bs).hash block = record {
        hashed = Data.create-hashed sha256 now _;
        not_before = early;
        not_after = late;
        linked = refl;
      } in
      let fits : add_u64 (last x bs).index 1 ≡ (last x bs).index + 1 =
        add_u64-fits _ 1 (omega arith) in
      (
        block,
        made now uuid content e,
        rw (chain-eq k x bs limit executor.chain_buf e refl)
            (block_verify-eq k x bs limit block ∙ Accepts→verify k block _ _ _ accepted),
        rw fits (as_u32-fits _ small),
        refl,
        refl,
      )
