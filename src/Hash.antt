-- ===== src/Hash.antt =====
-- The trait `Hasher` of src/hash.rs: the Merkle root of a chain. SHA-256 is the parameter `sha256`.
pub mod Merkle
pub mod Binding
pub mod Files
use history_chain.Base.{
  ℕ, zero, suc, Bytes, List, [], ◌∷◌, ◌++◌, map, Option, none, some, Result, ok, err, panicked,
  HError, ◌>>=◌, ◌>>◌, err_if, unwrap, length, get_elem?, ◌==◌, if◌then◌else◌,
}
use history_chain.Block.{Block}
use history_chain.Chain.{BlockChain}

module _ (sha256 : Bytes → Bytes) where
  -- Neighbours are digested together; the last one of an odd number, alone.
  unfoldable pub hash_neighbor : List Bytes → List Bytes
  hash_neighbor [] = []
  hash_neighbor (x ∷ []) = sha256 x ∷ []
  hash_neighbor (x ∷ y ∷ rest) = sha256 (x ++ y) ∷ hash_neighbor rest

  -- The loop of `merkle_root`, whose test stands at its end. `none` is a loop that runs out of
  -- fuel.
  unfoldable pub merkle_loop : ℕ → List Bytes → Option (List Bytes)
  merkle_loop zero current_hashs = none
  merkle_loop (suc fuel) current_hashs =
      let current_hashs' = hash_neighbor current_hashs in
      let rest = merkle_loop fuel current_hashs' in
      if length current_hashs' == 1 then some current_hashs' else rest

  -- A round halves the list, so that as many rounds as blocks are enough.
  unfoldable pub merkle_root : {B : Type 0} → Block B → BlockChain B → Result Bytes
  merkle_root k chain = do
    let current_hashs = map k.hash chain.blocks
    err_if (length current_hashs == 0) (HError.chain "the chain is empty")
    final ← unwrap (merkle_loop (length current_hashs) current_hashs)
    unwrap (get_elem? final 0)
