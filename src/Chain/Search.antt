-- ===== src/Chain/Search.antt =====
-- The lookups of the trait `Chain`, against the first block that matches.
use history_chain.Base.{
  Bytes, List, [], ◌∷◌, ◌++◌, ◌≡◌, ◌≢◌, inl, inr, refl, Option, none, some, All, bytes_eq,
  bytes_eq→eq, bytes_eq_refl, ap, Bool-cases,
}
use history_chain.Block.{Block, Carrier}
use history_chain.Chain.{
  BlockChain, find_block, get_block_by_hash, get_block_by_data_hash, get_block_by_data_uuid,
}

-- The first block of the list whose `key` is the wanted one, with the blocks before it.
abbrev FirstWith : {B : Type 0} → (B → Bytes) → Bytes → List B → Option B → Type 0
FirstWith {B} key wanted bs (some b) =
    (before : List B) × (after : List B) × (bs ≡ before ++ (b ∷ after))
    × (key b ≡ wanted)
    × All (λ a. key a ≢ wanted) before
FirstWith {B} key wanted bs none = All (λ a. key a ≢ wanted) bs

module _ {B : Type 0} (key : B → Bytes) (wanted : Bytes) where
  add_before :
      (b : B) (bs : List B) (found : Option B)
      → key b ≢ wanted
      → FirstWith key wanted bs found
      → FirstWith key wanted (b ∷ bs) found
  add_before b bs none other f = (other, f)
  add_before b bs (some a) other (before, after, split, hit, misses) =
      (b ∷ before, after, ap (λ l. b ∷ l) split, hit, (other, misses))

  find_block-FirstWith :
      (bs : List B) → FirstWith key wanted bs (find_block (λ b. bytes_eq (key b) wanted) bs)
  unfolding find_block
  find_block-FirstWith [] = tt
  find_block-FirstWith (b ∷ bs) = elim (Bool-cases (bytes_eq (key b) wanted)) [
    | inl hit ↦ rw hit ([], bs, refl, bytes_eq→eq _ _ hit, tt)
    | inr miss ↦ rw miss (
        add_before b bs _ (λ e. cc (bytes_eq_refl wanted, ap (λ t. bytes_eq t wanted) e))
          (find_block-FirstWith bs))
  ]

-- `get_block_by_hash` returns the first block that carries the hash, and no block exactly when
-- none carries it.
get_block_by_hash-FirstWith :
    {B : Type 0} (k : Block B) (chain : BlockChain B) (hash : Bytes)
    → FirstWith k.hash hash chain.blocks (get_block_by_hash k chain hash)
unfolding get_block_by_hash
get_block_by_hash-FirstWith k chain hash = find_block-FirstWith k.hash hash chain.blocks

-- `get_block_by_data_hash` returns the first block that carries the data's hash, and no block
-- exactly when none carries it.
get_block_by_data_hash-FirstWith :
    {B : Type 0} (k : Carrier B) (chain : BlockChain B) (data_hash : Bytes)
    → FirstWith k.data_hash data_hash chain.blocks (get_block_by_data_hash k chain data_hash)
unfolding get_block_by_data_hash
get_block_by_data_hash-FirstWith k chain data_hash =
    find_block-FirstWith k.data_hash data_hash chain.blocks

-- `get_block_by_data_uuid` returns the first block that carries the UUID, and no block exactly when
-- none carries it.
get_block_by_data_uuid-FirstWith :
    {B : Type 0} (k : Carrier B) (chain : BlockChain B) (data_uuid : Bytes)
    → FirstWith k.data_uuid data_uuid chain.blocks (get_block_by_data_uuid k chain data_uuid)
unfolding get_block_by_data_uuid
get_block_by_data_uuid-FirstWith k chain data_uuid =
    find_block-FirstWith k.data_uuid data_uuid chain.blocks
