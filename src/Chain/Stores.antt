-- ===== src/Chain/Stores.antt =====
-- `Main`, the chain of digest blocks, and `Sides`, the chains by digest id, of src/chain.rs.
pub mod MainAdd
use history_chain.Base.{
  ℕ, Bytes, [], ◌∷◌, Option, none, some, Result, ok, err, panicked, HError, ◌>>=◌, unwrap, and_then,
  length,
}
use history_chain.Base.Dict.{Dict, insert}
use history_chain.Block
use history_chain.Block.{Block}
use history_chain.Chain
use history_chain.Chain.{BlockChain, ChainLimit, last_block_ref, origin, gap, add, verify}

-- Its methods of the trait `Chain` are those of `chain`, the source's field `data`.
pub record Main (D : Type 0) : Type 0 where
  pub chain : BlockChain D

abbrev pub with_chain : {D : Type 0} → Result (Unit {0}) × BlockChain D → Result (Unit {0}) × Main D
with_chain (r, chain') = (r, record { chain = chain' })

module _ {D : Type 0} (k : Block D) where
  unfoldable pub main_new : ℕ → ℕ → ChainLimit → Main D
  main_new now digest_id limit = record { chain = Chain.new k now digest_id limit }

  main_check : Main D → D → D → Result (Unit {0})
  main_check main pre_block block = do
    time_start ← unwrap (origin k main.chain)
    Block.verify k block (k.hash pre_block) time_start (gap main.chain)

  pub add_block : Main D → D → Result (Unit {0}) × Main D
  unfolding main_check
  add_block main block = elim (last_block_ref main.chain) [
    | none ↦ (err (HError.chain "Main chain is empty, can't add block."), main)
    | some pre_block ↦
        and_then (main_check main pre_block block) main (with_chain (add k main.chain block))
  ]

abbrev pub Sides : Type 0 → Type 0
Sides B = Dict (BlockChain B)

module _ {B : Type 0} (k : Block B) where
  unfoldable pub sides_add_chain : Sides B → ℕ → BlockChain B → Result (Unit {0}) × Sides B
  sides_add_chain sides digest_id chain =
      and_then (verify k chain) sides (ok tt, insert digest_id chain sides)
