-- ===== src/Executor/Partial.antt =====
-- `add_chain` on a keeper with room in its main chain, within the main chain's time.
use history_chain.Base.{
  ℕ, suc, ◌+◌, ◌≤◌, ◌<◌, Bytes, List, [], ◌≡◌, ◌≢◌, ◌∙◌, inl, inr, refl, ok, length, last, add_u64,
  as_u32, ap, and_then-cases, subst,
}
use history_chain.Base.Dict.{insert}
use history_chain.Block.Data.{DataBlock, data_block}
use history_chain.Block.Digest
use history_chain.Block.Digest.{DigestBlock}
use history_chain.Chain.{BlockChain, ChainLimit, verify}
use history_chain.Chain.Linked.{IsLinkedPair}
use history_chain.Chain.Verify.{verify_iff}
use history_chain.Chain.Stores.{Sides, sides_add_chain}
use history_chain.Hash.{merkle_root}
use history_chain.Hash.Merkle.{digest, merkle_root-Tree}
use history_chain.Executor.{executor_add_chain, next_digest, store_side}
use history_chain.Executor.AddChain.{keeper_from, with_digest}
use history_chain.Executor.Reaches.{add_chain_reaches}

module _ (sha256 : Bytes → Bytes) (x : DigestBlock) (bs : List DigestBlock) (limit : ChainLimit)
    (sides : Sides DataBlock) (now : ℕ) (chain : BlockChain DataBlock)
    (room : suc (length bs) < limit.max_len) (early : x.timestamp ≤ now)
    (late : now ≤ add_u64 x.timestamp limit.time_gap) where
  -- A chain with blocks has a Merkle root.
  rooted :
      chain.blocks ≢ [] → (root : Bytes) × (merkle_root sha256 (data_block sha256) chain ≡ ok root)
  rooted some_blocks = elim (merkle_root-Tree sha256 (data_block sha256) chain) [
    | inl (empty, failed) ↦ absurd (some_blocks empty)
    | inr (t, digested, over) ↦ (digest sha256 t, digested)
  ]

  -- A chain that passes `verify` has blocks.
  verified_blocks : verify (data_block sha256) chain ≡ ok tt → chain.blocks ≢ []
  verified_blocks valid e =
      subst (IsLinkedPair (data_block sha256) chain.limit.time_gap) e
        ((verify_iff (data_block sha256) chain).0 valid)

  -- On a keeper with room, within the main chain's time, `add_chain` accepts every chain that
  -- passes `verify`: it succeeds, puts a digest block behind the main chain, which has the chain's
  -- length and the next digest id, and the chain among the sides under that id.
  pub add_chain_accepts :
      verify (data_block sha256) chain ≡ ok tt
      → (d : DigestBlock) × (executor_add_chain sha256 now (keeper_from x bs limit sides) chain
          ≡ (ok tt, with_digest x bs limit sides d (insert d.digest_id chain sides)))
        × (d.length ≡ as_u32 (length chain.blocks))
        × (d.digest_id ≡ as_u32 (as_u32 (last x bs).digest_id + 1))
  unfolding store_side sides_add_chain next_digest Digest.create
  add_chain_accepts valid =
      let (root, e) = rooted (verified_blocks valid) in
      (
        next_digest sha256 now (last x bs) root chain,
        add_chain_reaches sha256 x bs limit sides now chain root room early late e ∙ rw valid,
        refl,
        refl,
      )

  -- On a keeper with room, within the main chain's time, a chain that has blocks and does not pass
  -- `verify` is refused only after the first write: the call fails, the sides stay, and the main
  -- chain has a digest block more.
  add_chain_half_done :
      chain.blocks ≢ []
      → verify (data_block sha256) chain ≢ ok tt
      → (d : DigestBlock) × ((executor_add_chain sha256 now (keeper_from x bs limit sides) chain).0
          ≢ ok tt)
        × ((executor_add_chain sha256 now (keeper_from x bs limit sides) chain).1
            ≡ with_digest x bs limit sides d sides)
  unfolding store_side sides_add_chain
  add_chain_half_done some_blocks invalid =
      let (root, e) = rooted some_blocks in
      let d = next_digest sha256 now (last x bs) root chain in
      let path = add_chain_reaches sha256 x bs limit sides now chain root room early late e in
      elim (and_then-cases (verify (data_block sha256) chain) sides
        (insert d.digest_id chain sides)) [
          | inl (valid, kept) ↦ absurd (invalid valid)
          | inr (same, bad, unchanged) ↦
              (d, rw path bad, rw path (ap (λ s. with_digest x bs limit sides d s) unchanged))
        ]
