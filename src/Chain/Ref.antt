-- ===== src/Chain/Ref.antt =====
-- `ChainRef` of src/chain.rs, a pointer into a chain's vector with a length. A read outside the
-- vector is undefined behaviour in the source; here it is `none`, and `panicked` where code goes on
-- from it.
pub mod Segment
pub mod Contain
use history_chain.Base.{
  ℕ, zero, suc, ◌+◌, ◌-◌, min, max, Bytes, List, Bool, Option, none, some, Result, ok, err, HError,
  ◌>>=◌, ◌>>◌, err_if, unwrap, length, get_elem?, take, drop, leb, ltb, ◌==◌, if◌then◌else◌,
  bytes_eq, add_u64, sub_u64,
}
use history_chain.Block
use history_chain.Block.{Block, Carrier}
use history_chain.Chain
use history_chain.Chain.{BlockChain, verify}

pub record ChainRef (B : Type 0) : Type 0 where
  -- The vector pointed into, and the index of the first block there.
  pub memory : List B
  pub offset : ℕ
  pub len : ℕ

module _ {B : Type 0} where
  -- `*self.data.add(i)`
  deref : ChainRef B → ℕ → Option B
  deref r i = get_elem? r.memory (r.offset + i)

  pub ref_block_ref : ChainRef B → ℕ → Option B
  unfolding deref
  ref_block_ref r local_index = if ltb local_index r.len then deref r local_index else none

  -- `slice::from_raw_parts`, which wants every block to be in the vector.
  pub as_slice : ChainRef B → Option (List B)
  as_slice r =
      if leb (r.offset + r.len) (length r.memory)
      then some (take r.len (drop r.offset r.memory))
      else none

  unfoldable from_slice : List B → ChainRef B
  from_slice slice = record { memory = slice; offset = 0; len = length slice }

  -- The loop `for i in 0..len` of the `contain` methods, with the rounds that are left.
  pub contain_loop : (B → Bool) → ChainRef B → ℕ → ℕ → Result (Option ℕ)
  unfolding deref
  contain_loop test r zero i = ok none
  contain_loop test r (suc rounds) i = do
    block ← unwrap (deref r i)
    let rest = contain_loop test r rounds (i + 1)
    if test block then ok (some i) else rest

  -- `into_vec`, a copy of the slice.
  unfoldable into_vec : ChainRef B → Option (List B)
  unfolding as_slice
  into_vec r = as_slice r

module _ {B : Type 0} (k : Block B) where
  -- The rounds of `ChainRef::new` from an index on: each block against the hash of the one before.
  checked : ChainRef B → ℕ → ℕ → ℕ → ℕ → Result (Unit {0})
  unfolding deref
  checked r time_origin time_gap zero i = ok tt
  checked r time_origin time_gap (suc rounds) i = do
    pre_block ← unwrap (deref r (i - 1))
    block ← unwrap (deref r i)
    Block.verify k block (k.hash pre_block) time_origin time_gap
    checked r time_origin time_gap rounds (i + 1)

  -- `ChainRef::new`, which skips the first block.
  unfoldable ref_new : List B → ℕ → ℕ → ℕ → ℕ → Result (ChainRef B)
  unfolding checked
  ref_new memory offset len time_origin time_gap = do
    let r : ChainRef B = record { memory = memory; offset = offset; len = len }
    checked r time_origin time_gap (len - 1) 1
    ok r

  -- The loop of `hash_select`, with the rounds that are left.
  select_loop : Bytes → ChainRef B → ℕ → ℕ → Result (Option B)
  unfolding ref_block_ref
  select_loop hash r zero i = ok none
  select_loop hash r (suc rounds) i = do
    block ← unwrap (ref_block_ref r i)
    let rest = select_loop hash r rounds (i + 1)
    if bytes_eq (k.hash block) hash then ok (some block) else rest

  unfoldable hash_select : ChainRef B → Bytes → Result (Option B)
  unfolding select_loop
  hash_select r hash = select_loop hash r r.len 0

  pub from_chain_by_index : BlockChain B → ℕ → ℕ → Result (ChainRef B)
  from_chain_by_index chain start end = do
    verify k chain
    err_if (ltb end start) (HError.chain "start index is greater than end index")
    let len = length chain.blocks
    first ← unwrap (get_elem? chain.blocks 0)
    final ← unwrap (get_elem? chain.blocks (len - 1))
    let min_index = max (k.index first) start
    let max_index = min (k.index final) end
    ok (record {
      memory = chain.blocks;
      offset = sub_u64 min_index (k.index first);
      len = add_u64 (sub_u64 max_index min_index) 1;
    })

  -- `BlockChain::index_select`
  unfoldable index_select : BlockChain B → ℕ × ℕ → Result (ChainRef B)
  unfolding from_chain_by_index
  index_select chain (start, end) = from_chain_by_index chain start end

  unfoldable from_chain : BlockChain B → Result (ChainRef B)
  from_chain chain = do
    verify k chain
    ok (record { memory = chain.blocks; offset = 0; len = length chain.blocks })

  pub contain_hash : ChainRef B → Bytes → Result (Option ℕ)
  contain_hash r hash = contain_loop (λ b. bytes_eq (k.hash b) hash) r r.len 0

  pub contain_index : ChainRef B → ℕ → Result (Option ℕ)
  contain_index r index = contain_loop (λ b. k.index b == index) r r.len 0

module _ {B : Type 0} (k : Carrier B) where
  pub contain_data_hash : ChainRef B → Bytes → Result (Option ℕ)
  contain_data_hash r data_hash = contain_loop (λ b. bytes_eq (k.data_hash b) data_hash) r r.len 0

  pub contain_uuid : ChainRef B → Bytes → Result (Option ℕ)
  contain_uuid r uuid = contain_loop (λ b. bytes_eq (k.data_uuid b) uuid) r r.len 0
