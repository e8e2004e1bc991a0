-- ===== src/Executor/Keeps.antt =====
-- Sound keepers.
use history_chain.Base.{
  ℕ, ◌≤◌, Bytes, List, [], ◌∷◌, ◌≡◌, inl, inr, Result, ok, arith, last, All, false,
}
use history_chain.Base.Dict.{All-insert}
use history_chain.Block.Data.{DataBlock, data_block}
use history_chain.Block.Digest.{DigestBlock, digest_block}
use history_chain.Chain.{BlockChain, ChainLimit, verify, new}
use history_chain.Chain.Add.{IsSound, push-IsSound}
use history_chain.Chain.Stores.{Sides, main_new}
use history_chain.Keeper.{ChainKeeper, keeper_is_full, keeper_new}
use history_chain.Executor.{executor_add_chain, next_digest}
use history_chain.Executor.AddChain.{keeper_from, Stores, executor_add_chain_lem}

module _ (sha256 : Bytes → Bytes) where
  -- The main chain is sound, and every side chain passes `verify`.
  pub record IsSoundKeeper (keeper : ChainKeeper DataBlock DigestBlock) : Type 0 where
    pub main : IsSound (digest_block sha256) keeper.main.chain
    pub sides : All (λ e. verify (data_block sha256) (e.1) ≡ ok tt) keeper.sides

  module _ (x : DigestBlock) (bs : List DigestBlock) (limit : ChainLimit) (sides : Sides DataBlock)
      (h : IsSoundKeeper (keeper_from x bs limit sides)) (chain : BlockChain DataBlock) where
    stores_keeps :
        (d : DigestBlock) (p : Result (Unit {0}) × ChainKeeper DataBlock DigestBlock)
        → Stores x bs limit sides sha256 chain d p
        → IsSoundKeeper p.1
    stores_keeps d (r, keeper') (inl (done, f, valid, kept)) = rw kept (record {
      main = push-IsSound (digest_block sha256) x bs limit d h.main (f.0) (f.1);
      sides = All-insert _ d.digest_id chain sides valid h.sides;
    })
    stores_keeps d (r, keeper') (inr (inl (failed, f, invalid, kept))) = rw kept (record {
      main = push-IsSound (digest_block sha256) x bs limit d h.main (f.0) (f.1);
      sides = h.sides;
    })
    stores_keeps d (r, keeper') (inr (inr (failed, same))) = rw same h

    keeps_from :
        (now : ℕ)
        → IsSoundKeeper (executor_add_chain sha256 now (keeper_from x bs limit sides) chain).1
    keeps_from now = elim (executor_add_chain_lem x bs limit sides sha256 now chain) [
      | inl (root, rooted, s) ↦ stores_keeps (next_digest sha256 now (last x bs) root chain) _ s
      | inr (failed, same) ↦ rw same h
    ]

  keeps_at :
      (bs : List DigestBlock) (limit : ChainLimit) (sides : Sides DataBlock) (now : ℕ)
      (chain : BlockChain DataBlock)
      → let keeper : ChainKeeper DataBlock DigestBlock = record {
        main = record { chain = record { blocks = bs; limit = limit } };
        sides = sides;
      } in
        IsSoundKeeper keeper → IsSoundKeeper (executor_add_chain sha256 now keeper chain).1
  keeps_at [] limit sides now chain h = absurd h.main.linked
  keeps_at (x ∷ bs) limit sides now chain h = keeps_from x bs limit sides h chain now

  -- `add_chain` keeps the keeper sound, however it ends: the main chain is linked and within its
  -- limit, and every side chain passes `verify`.
  pub add_chain-IsSoundKeeper :
      (keeper : ChainKeeper DataBlock DigestBlock) (now : ℕ) (chain : BlockChain DataBlock)
      → IsSoundKeeper keeper
      → IsSoundKeeper (executor_add_chain sha256 now keeper chain).1
  add_chain-IsSoundKeeper keeper now chain h =
      keeps_at keeper.main.chain.blocks keeper.main.chain.limit keeper.sides now chain h

  -- A new keeper is sound.
  pub keeper_new-IsSoundKeeper :
      (now : ℕ) (limit : ChainLimit) → IsSoundKeeper (keeper_new (digest_block sha256) now limit)
  unfolding keeper_new main_new new
  keeper_new-IsSoundKeeper now limit = record {
    main = record { linked = tt; fits = omega arith };
    sides = tt;
  }

  -- The test for a full keeper never passes on a sound keeper whose limit is at least one: it asks
  -- for a length above the limit, which `add` never lets the main chain reach.
  keeper_is_full-IsSoundKeeper :
      (keeper : ChainKeeper DataBlock DigestBlock)
      → 1 ≤ keeper.main.chain.limit.max_len
      → IsSoundKeeper keeper
      → keeper_is_full keeper ≡ false
  unfolding keeper_is_full
  keeper_is_full-IsSoundKeeper keeper pos h = ground (arith, h.main.fits)
