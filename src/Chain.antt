-- ===== src/Chain.antt =====
-- `ChainLimit`, the trait `Chain` at its implementation `BlockChain`, and the methods of
-- `BlockChain`, of src/chain.rs. A method on `&mut self` returns its result and the new chain.
pub mod Ref
pub mod Stores
pub mod Linked
pub mod Verify
pub mod Add
pub mod Search
pub mod Info
pub mod Tamper
use mathlib.Core.Option
use history_chain.Base.{
  ℕ, zero, suc, ◌+◌, ◌-◌, ◌*◌, Bytes, List, [], ◌∷◌, ◌++◌, Bool, true, not, ◌&&◌, ◌||◌, Option,
  none, some, Result, ok, err, panicked, HError, ◌>>=◌, ◌>>◌, err_if, unwrap, and_then, length,
  get_elem?, ltb, leb, ◌==◌, if◌then◌else◌, bytes_eq, add_u64,
}
use history_chain.Block
use history_chain.Block.{Block, Carrier, zero_hash}

pub record ChainLimit : Type 0 where
  pub max_len : ℕ
  pub time_gap : ℕ

unfoldable length_check : ChainLimit → ℕ → Result (Unit {0})
length_check limit len =
    err_if (ltb limit.max_len len) (HError.chain "chain length is too long, max length is {}")

unfoldable pub time_check : {B : Type 0} → Block B → ChainLimit → ℕ → B → Result (Unit {0})
time_check k limit origin block =
    err_if (ltb (add_u64 origin limit.time_gap) (k.timestamp block))
      (HError.chain "the time gap between the new block and the origin block is too long")

abbrev default_limit : ChainLimit
default_limit = record { max_len = 1000; time_gap = 60 * 60 * 24 }

pub record BlockChain (B : Type 0) : Type 0 where
  pub blocks : List B
  pub limit : ChainLimit

module _ {B : Type 0} where
  unfoldable pub push : BlockChain B → B → BlockChain B
  push chain block = record chain { blocks = chain.blocks ++ (block ∷ []) }

  unfoldable pub block_ref : BlockChain B → ℕ → Option B
  block_ref chain local_index =
      if ltb local_index (length chain.blocks) then get_elem? chain.blocks local_index else none

  abbrev pub len : BlockChain B → ℕ
  len chain = length chain.blocks

  abbrev pub gap : BlockChain B → ℕ
  gap chain = chain.limit.time_gap

  unfoldable is_empty : BlockChain B → Result (Unit {0})
  is_empty chain = err_if (len chain == 0) (HError.chain "empty chain")

  unfoldable pub is_full : BlockChain B → Bool
  is_full chain = leb chain.limit.max_len (length chain.blocks)

  -- The `unwrap` in the source is of a block that the test has shown to be there.
  unfoldable pub last_block_ref : BlockChain B → Option B
  unfolding block_ref
  last_block_ref chain = if len chain == 0 then none else block_ref chain (len chain - 1)

-- The loops over `0 .. len`, which stop at the first block that passes the test.
pub find_block : {B : Type 0} → (B → Bool) → List B → Option B
find_block test [] = none
find_block test (b ∷ bs) = if test b then some b else find_block test bs

module _ {B : Type 0} (k : Block B) where
  unfoldable pub origin : BlockChain B → Option ℕ
  unfolding block_ref
  origin chain = if len chain == 0 then none else Option.map k.timestamp (block_ref chain 0)

  -- The rounds of the loop in `verify` from the block behind `pre_block` on.
  pub verify_from : ℕ → ℕ → B → List B → Result (Unit {0})
  verify_from time_start time_gap pre_block [] = ok tt
  verify_from time_start time_gap pre_block (block ∷ rest) =
      Block.verify k block (k.hash pre_block) time_start time_gap
      >> verify_from time_start time_gap block rest

  verify_rounds : ℕ → ℕ → List B → Result (Unit {0})
  verify_rounds time_start time_gap [] = ok tt
  verify_rounds time_start time_gap (first ∷ rest) = verify_from time_start time_gap first rest

  unfoldable pub verify : BlockChain B → Result (Unit {0})
  unfolding origin verify_rounds
  verify chain = do
    err_if (len chain == 0 || len chain == 1) (HError.chain "empty chain")
    time_start ← unwrap (origin chain)
    verify_rounds time_start (gap chain) chain.blocks

  unfoldable pub last_index : BlockChain B → Option ℕ
  unfolding last_block_ref
  last_index chain = Option.map k.index (last_block_ref chain)

  unfoldable block_ref_by_index : BlockChain B → ℕ → Result (Option B)
  unfolding block_ref
  block_ref_by_index chain index = do
    first ← unwrap (block_ref chain 0)
    let min_index = k.index first
    final ← unwrap (block_ref chain (len chain - 1))
    let max_index = k.index final
    if leb min_index index && leb index max_index
        then (unwrap (block_ref chain (index - min_index)) >>= λ b. ok (some b))
        else ok none

  pub get_block_by_hash : BlockChain B → Bytes → Option B
  get_block_by_hash chain hash = find_block (λ b. bytes_eq (k.hash b) hash) chain.blocks

  -- `Block::time_verify_with_chain` of src/block.rs.
  unfoldable time_verify_with_chain : B → BlockChain B → Result (Unit {0})
  time_verify_with_chain block chain = do
    err_if (len chain == 0) (HError.block "chain is empty, can't verify the block we have now!")
    time_start ← unwrap (origin chain)
    let timestamp = k.timestamp block
    err_if (ltb timestamp time_start || ltb (add_u64 time_start (gap chain)) timestamp)
        (HError.block "timestamp is not correct, block is invalid in this chain")

  -- `BlockChain::new`, at the clock's time.
  unfoldable pub new : ℕ → ℕ → ChainLimit → BlockChain B
  new now digest_id limit = record { blocks = k.genesis now digest_id ∷ []; limit = limit }

  unfoldable pub block_verify : BlockChain B → B → Result (Unit {0})
  unfolding last_block_ref origin
  block_verify chain block = do
    err_if (len chain == 0) (HError.chain "empty chain")
    pre_block ← unwrap (last_block_ref chain)
    time_origin ← unwrap (origin chain)
    Block.verify k block (k.hash pre_block) time_origin (gap chain)

  unfoldable pub add : BlockChain B → B → Result (Unit {0}) × BlockChain B
  unfolding is_full block_verify push
  add chain block =
      if len chain == 0
      then and_then
          (err_if (not (bytes_eq (k.prev_hash block) zero_hash)) (HError.chain "empty chain")) chain
          (ok tt, push chain block)
      else if is_full chain
      then (err (HError.chain "chain is full"), chain)
      else and_then (block_verify chain block) chain (ok tt, push chain block)

module _ {B : Type 0} (k : Carrier B) where
  pub get_block_by_data_hash : BlockChain B → Bytes → Option B
  get_block_by_data_hash chain data_hash =
      find_block (λ b. bytes_eq (k.data_hash b) data_hash) chain.blocks

  pub get_block_by_data_uuid : BlockChain B → Bytes → Option B
  get_block_by_data_uuid chain data_uuid =
      find_block (λ b. bytes_eq (k.data_uuid b) data_uuid) chain.blocks
