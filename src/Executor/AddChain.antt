-- ===== src/Executor/AddChain.antt =====
-- `Executor::add_chain`, by how it ends.
use history_chain.Base.{
  ℕ, suc, ◌<◌, Bytes, List, ◌∷◌, ◌≡◌, ◌≢◌, ◌⊎◌, inl, inr, refl, Result, ok, err, panicked, length,
  last, Bool-cases, ap, and_then-cases,
}
use history_chain.Base.Dict.{insert}
use history_chain.Block.Verify.{Accepts}
use history_chain.Block.Data.{DataBlock, data_block}
use history_chain.Block.Digest.{DigestBlock, digest_block}
use history_chain.Chain.{BlockChain, ChainLimit, verify, push}
use history_chain.Chain.Add.{last_block_ref-eq}
use history_chain.Chain.Stores.{Main, Sides, sides_add_chain}
use history_chain.Chain.Stores.MainAdd.{add_block_lem}
use history_chain.Hash.{merkle_root}
use history_chain.Keeper.{ChainKeeper, keeper_is_full}
use history_chain.Executor.{executor_add_chain, next_digest, store_chain, store_side, digest_chain}

module _ (x : DigestBlock) (bs : List DigestBlock) (limit : ChainLimit)
    (sides : Sides DataBlock) where
  abbrev pub main_chain : BlockChain DigestBlock
  main_chain = record { blocks = x ∷ bs; limit = limit }

  -- A keeper whose main chain has the origin `x`.
  abbrev pub keeper_from : ChainKeeper DataBlock DigestBlock
  keeper_from = record { main = record { chain = main_chain }; sides = sides }

  -- The keeper with the digest block at the end of its main chain.
  abbrev pub with_digest : DigestBlock → Sides DataBlock → ChainKeeper DataBlock DigestBlock
  with_digest d sides' = record { main = record { chain = push main_chain d }; sides = sides' }

  -- The main chain has room, and the block follows its last block within its time.
  abbrev Follows : (Bytes → Bytes) → DigestBlock → Type 0
  Follows sha256 d =
      (suc (length bs) < limit.max_len)
      × Accepts (digest_block sha256) x.timestamp limit.time_gap (last x bs).hash d

  -- What `store_chain` has done when it returns.
  abbrev pub Stores :
      (Bytes → Bytes)
      → BlockChain DataBlock
      → DigestBlock
      → Result (Unit {0}) × ChainKeeper DataBlock DigestBlock
      → Type 0
  Stores sha256 chain d (r, keeper') =
      ((r ≡ ok tt)
        × Follows sha256 d
        × (verify (data_block sha256) chain ≡ ok tt)
        × (keeper' ≡ with_digest d (insert d.digest_id chain sides)))
      ⊎ (((r ≢ ok tt)
            × Follows sha256 d
            × (verify (data_block sha256) chain ≢ ok tt)
            × (keeper' ≡ with_digest d sides))
          ⊎ ((r ≢ ok tt) × (keeper' ≡ keeper_from)))

  module _ (sha256 : Bytes → Bytes) where
    -- With the digest block in the main chain, what `sides_add_chain` does decides.
    stored :
        (chain : BlockChain DataBlock) (d : DigestBlock)
        → Follows sha256 d
        → Stores sha256 chain d (
            store_side sha256 sides d.digest_id chain (ok tt, record { chain = push main_chain d }))
    unfolding store_side sides_add_chain
    stored chain d f =
        elim (and_then-cases (verify (data_block sha256) chain) sides
          (insert d.digest_id chain sides)) [
            | inl (valid, kept) ↦ rw kept (inl (refl, f, valid, refl))
            | inr (invalid, bad, same) ↦ inr (inl (bad, f, invalid, ap (λ s. with_digest d s) same))
          ]

    -- Where the main chain refused the digest block, nothing has changed.
    refused :
        (chain : BlockChain DataBlock) (d : DigestBlock) (p : Result (Unit {0}) × Main DigestBlock)
        → p.0 ≢ ok tt
        → p.1 ≡ record { chain = main_chain }
        → Stores sha256 chain d (store_side sha256 sides d.digest_id chain p)
    unfolding store_side
    refused chain d (ok tt, main) bad same = absurd (bad refl)
    refused chain d (err e, main) bad same =
        inr (inr ((λ q. cc), ap (λ m. record { main = m; sides = sides }) same))
    refused chain d (panicked, main) bad same =
        inr (inr ((λ q. cc), ap (λ m. record { main = m; sides = sides }) same))

    store_chain-Stores :
        (chain : BlockChain DataBlock) (d : DigestBlock)
        → Stores sha256 chain d (store_chain sha256 keeper_from d chain)
    unfolding store_chain
    store_chain-Stores chain d = elim (add_block_lem (digest_block sha256) x bs limit d) [
      | inl (done, room, accepted) ↦ rw done (stored chain d (room, accepted))
      | inr (failed, same, why) ↦ refused chain d _ failed same
    ]

    by_root :
        (now : ℕ) (chain : BlockChain DataBlock) (r : Result Bytes)
        → merkle_root sha256 (data_block sha256) chain ≡ r
        → let done =
            digest_chain sha256 now keeper_from chain
              (last x bs)
              (merkle_root sha256 (data_block sha256) chain) in
          ((root : Bytes) × (merkle_root sha256 (data_block sha256) chain ≡ ok root)
            × Stores sha256 chain (next_digest sha256 now (last x bs) root chain) done)
          ⊎ ((done.0 ≢ ok tt) × (done.1 ≡ keeper_from))
    unfolding digest_chain
    by_root now chain (ok root) e = rw e (inl (root, refl, store_chain-Stores chain _))
    by_root now chain (err f) e = rw e (inr ((λ q. cc), refl))
    by_root now chain panicked e = rw e (inr ((λ q. cc), refl))

    -- How `add_chain` ends on a keeper whose main chain has its origin: either it succeeds, the
    -- chain passes `verify`, its Merkle root stands in a new digest block that follows the main
    -- chain's last and is put behind it, and the chain stands among the sides under that block's
    -- digest id; or it fails and the sides are as they were. In the second case the main chain is as it was too, or the chain
    -- does not pass `verify` and the main chain has the new digest block all the
    -- same.
    pub executor_add_chain_lem :
        (now : ℕ) (chain : BlockChain DataBlock)
        → ((root : Bytes) × (merkle_root sha256 (data_block sha256) chain ≡ ok root)
            × Stores sha256 chain
                (next_digest sha256 now (last x bs) root chain)
                (executor_add_chain sha256 now keeper_from chain))
          ⊎ (((executor_add_chain sha256 now keeper_from chain).0 ≢ ok tt)
              × ((executor_add_chain sha256 now keeper_from chain).1 ≡ keeper_from))
    unfolding executor_add_chain
    executor_add_chain_lem now chain = elim (Bool-cases (keeper_is_full keeper_from)) [
      | inl full ↦ inr (rw full (λ q. cc), rw full refl)
      | inr room ↦
          rw room
            (rw (last_block_ref-eq (digest_block sha256) x bs limit) (by_root now chain _ refl))
    ]
