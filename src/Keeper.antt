-- ===== src/Keeper.antt =====
-- `ChainKeeper` and the trait `Keeper` of src/keeper.rs, at blocks `B` in the side chains and `D` in
-- the main chain.
pub mod SideRef
use history_chain.Base.{ℕ, [], Bool, Option, none, length, ltb, if◌then◌else◌, ◌==◌}
use history_chain.Base.Dict.{lookup}
use history_chain.Block.{Block}
use history_chain.Chain.{BlockChain, ChainLimit, len}
use history_chain.Chain.Stores.{Main, Sides, main_new}

pub record ChainKeeper (B D : Type 0) : Type 0 where
  pub main : Main D
  pub sides : Sides B

module _ {B D : Type 0} where
  -- `ChainKeeper::new`: the genesis block of the main chain has the digest id 1.
  unfoldable pub keeper_new : Block D → ℕ → ChainLimit → ChainKeeper B D
  unfolding main_new
  keeper_new k now limit = record { main = main_new k now 1 limit; sides = [] }

  unfoldable pub side_ref : ChainKeeper B D → ℕ → Option (BlockChain B)
  side_ref keeper digest_id =
      if length keeper.sides == 0 then none else lookup digest_id keeper.sides

  unfoldable pub keeper_is_full : ChainKeeper B D → Bool
  keeper_is_full keeper = ltb keeper.main.chain.limit.max_len (len keeper.main.chain)
