-- ===== src/Executor/Reaches.antt =====
-- The path of `add_chain` to its writes, and the digest block that it makes.
use history_chain.Base.{
  ℕ, suc, ◌≤◌, ◌<◌, Bytes, List, ◌≡◌, inl, inr, refl, ok, arith, length, last, add_u64, false,
}
use history_chain.Block.Verify.{Accepts}
use history_chain.Block.Data.{DataBlock, data_block}
use history_chain.Block.Digest
use history_chain.Block.Digest.{DigestBlock, digest_block}
use history_chain.Chain.{BlockChain, ChainLimit, push}
use history_chain.Chain.Add.{last_block_ref-eq}
use history_chain.Chain.Stores.{Sides}
use history_chain.Chain.Stores.MainAdd.{add_block_lem}
use history_chain.Hash.{merkle_root}
use history_chain.Keeper.{keeper_is_full}
use history_chain.Executor.{executor_add_chain, next_digest, store_chain, store_side, digest_chain}
use history_chain.Executor.AddChain.{keeper_from, main_chain}

module _ (sha256 : Bytes → Bytes) (x : DigestBlock) (bs : List DigestBlock) (limit : ChainLimit)
    (sides : Sides DataBlock) (now : ℕ) (chain : BlockChain DataBlock) (root : Bytes) where
  -- The digest block follows the last one if the clock stands within the main chain's time.
  next_digest-Accepts :
      x.timestamp ≤ now
      → now ≤ add_u64 x.timestamp limit.time_gap
      → Accepts
          (digest_block sha256)
          x.timestamp
          limit.time_gap
          (last x bs).hash
          (next_digest sha256 now (last x bs) root chain)
  unfolding next_digest Digest.create
  next_digest-Accepts early late = record {
    hashed = Digest.create-hashed sha256 now _;
    not_before = early;
    not_after = late;
    linked = refl;
  }

  not_full : suc (length bs) < limit.max_len → keeper_is_full (keeper_from x bs limit sides) ≡ false
  unfolding keeper_is_full
  not_full room = ground arith

  -- With room in the main chain, the clock within its time and a Merkle root, the digest block
  -- goes into the main chain, and what the sides do with the chain decides.
  pub add_chain_reaches :
      suc (length bs) < limit.max_len
      → x.timestamp ≤ now
      → now ≤ add_u64 x.timestamp limit.time_gap
      → merkle_root sha256 (data_block sha256) chain ≡ ok root
      → let d = next_digest sha256 now (last x bs) root chain in
        executor_add_chain sha256 now (keeper_from x bs limit sides) chain
        ≡ store_side sha256 sides d.digest_id chain
            (ok tt, record { chain = push (main_chain x bs limit sides) d })
  unfolding executor_add_chain digest_chain store_chain
  add_chain_reaches room early late rooted =
      let d = next_digest sha256 now (last x bs) root chain in
      let k = digest_block sha256 in
      elim (add_block_lem k x bs limit d) [
        | inl (done, fits, accepted) ↦
            rw (not_full room) (rw (last_block_ref-eq k x bs limit) (rw rooted (rw done refl)))
        | inr (failed, same, refused) ↦ absurd (refused (room, next_digest-Accepts early late))
      ]
