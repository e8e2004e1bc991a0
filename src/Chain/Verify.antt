-- ===== src/Chain/Verify.antt =====
-- `Chain::verify` against the predicate `IsVerified`.
use history_chain.Base.{List, [], ◌∷◌, ◌≡◌, ◌↔◌, ◌∙◌, sym, ok, arith}
use history_chain.Block.{Block}
use history_chain.Chain.{
  BlockChain, ChainLimit, verify, verify_rounds, origin, block_ref, verify_from,
}
use history_chain.Chain.Linked.{IsVerified, IsLinkedPair, verify_from→Linked, Linked→verify_from}

module _ {B : Type 0} (k : Block B) where
  -- With two blocks the loop runs from the origin on.
  verify-eq :
      (limit : ChainLimit) (x b : B) (bs : List B)
      → verify k (record { blocks = x ∷ b ∷ bs; limit = limit })
        ≡ verify_from k (k.timestamp x) limit.time_gap x (b ∷ bs)
  unfolding verify verify_rounds origin block_ref
  verify-eq limit x b bs = ground arith

  by_blocks :
      (limit : ChainLimit) (bs : List B)
      → (verify k (record { blocks = bs; limit = limit }) ≡ ok tt)
        ↔ IsLinkedPair k limit.time_gap bs
  unfolding verify
  by_blocks limit [] = (λ e. cc, λ h. absurd h)
  by_blocks limit (x ∷ []) = (λ e. cc, λ h. absurd h)
  by_blocks limit (x ∷ b ∷ bs) = (
    λ e.
        verify_from→Linked k (k.timestamp x) limit.time_gap x (b ∷ bs)
          (sym (verify-eq limit x b bs) ∙ e),
    λ l. verify-eq limit x b bs ∙ Linked→verify_from k (k.timestamp x) limit.time_gap x (b ∷ bs) l,
  )

  -- `verify` succeeds exactly on the chains of two blocks or more in which every block behind
  -- the first carries the digest of its own fields, names the hash of the block before it, and
  -- is dated from the origin's time to the origin's time plus the gap.
  pub verify_iff : (chain : BlockChain B) → (verify k chain ≡ ok tt) ↔ IsVerified k chain
  verify_iff chain = by_blocks chain.limit chain.blocks
