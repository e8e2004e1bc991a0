-- ===== src/Tests/OfBinds.antt =====
-- Two keepers that end in one hash and keep different side chains, under the hash function of the tests.
use history_chain.Base.{
  [], ◌∷◌, ◌≡◌, ◌⊎◌, ◌∙◌, refl, ok, arith, subst, add_u64, ◌≤◌, be_bytes, as_u32,
}
use history_chain.Block.Binding.OfData.{IsDataWf}
use history_chain.Block.Binding.OfDigest.{IsDigestWf}
use history_chain.Block.Data
use history_chain.Block.Data.{DataBlock, data_block}
use history_chain.Block.Digest
use history_chain.Block.Digest.{DigestBlock, digest_block}
use history_chain.Chain
use history_chain.Chain.{BlockChain, verify, push}
use history_chain.Chain.Stores.{sides_add_chain, main_new}
use history_chain.Executor.{executor_add_chain, next_digest, store_side}
use history_chain.Executor.AddChain.{keeper_from}
use history_chain.Executor.Binds.{IsSized, Collision, hashes, keepers_bind}
use history_chain.Executor.Commits.{Reached, starts, adds, IsCommitted, Reached-IsCommitted}
use history_chain.Executor.Reaches.{add_chain_reaches}
use history_chain.Keeper.{ChainKeeper, keeper_new, side_ref}
use history_chain.Tests.Fixtures.{
  sha, length-sha, small_limit, genesis_block, second_block, third_block, next_args, three_blocks,
  other_three, three_root, other_root, three_verify, other_verify, first_digest,
}

abbrev last_block : DataBlock
last_block = Data.create sha 40 (next_args second_block 2)

-- Both chains have this digest block.
abbrev digest_of_both : DigestBlock
digest_of_both = next_digest sha 20 first_digest (genesis_block.hash) three_blocks

early : first_digest.timestamp ≤ 20
unfolding Digest.genesis Digest.create
early = omega arith

late : 20 ≤ add_u64 first_digest.timestamp 100
unfolding Digest.genesis Digest.create add_u64
late = omega arith

abbrev keeping : BlockChain DataBlock → ChainKeeper DataBlock DigestBlock
keeping chain = keeper_from first_digest (digest_of_both ∷ []) small_limit ((2, chain) ∷ [])

three-Reached : Reached sha small_limit (keeping three_blocks)
unfolding store_side sides_add_chain push keeper_new main_new Chain.new next_digest Digest.create
    Digest.genesis as_u32
three-Reached =
    let ended : executor_add_chain sha 20 (keeper_from first_digest [] small_limit []) three_blocks
        ≡ (ok tt, keeping three_blocks) =
      add_chain_reaches sha first_digest [] small_limit [] 20 three_blocks (genesis_block.hash)
        (omega arith) early late three_root
      ∙ rw three_verify refl in
    subst (λ p. Reached sha small_limit (p.1)) ended (adds 20 three_blocks (starts 10))

other-Reached : Reached sha small_limit (keeping other_three)
unfolding store_side sides_add_chain push keeper_new main_new Chain.new next_digest Digest.create
    Digest.genesis as_u32
other-Reached =
    let ended : executor_add_chain sha 20 (keeper_from first_digest [] small_limit []) other_three
        ≡ (ok tt, keeping other_three) =
      add_chain_reaches sha first_digest [] small_limit [] 20 other_three (genesis_block.hash)
        (omega arith) early late other_root
      ∙ rw other_verify refl in
    subst (λ p. Reached sha small_limit (p.1)) ended (adds 20 other_three (starts 10))

Reached-IsCommitted_example : IsCommitted sha small_limit (keeping three_blocks)
Reached-IsCommitted_example =
    Reached-IsCommitted sha small_limit (keeping three_blocks) (omega arith) three-Reached

digest_of_both-IsDigestWf : IsDigestWf digest_of_both
unfolding next_digest Digest.create Digest.genesis Digest.hash_block Digest.preimage Data.genesis
    Data.create Data.hash_block Data.preimage be_bytes as_u32
digest_of_both-IsDigestWf = record {
  timestamp = omega arith;
  prev_hash = refl;
  merkle_root = refl;
  len = omega arith;
  digest_id = omega arith;
}

second_IsDataWf : IsDataWf second_block
unfolding Data.genesis Data.create Data.hash_block Data.preimage be_bytes
second_IsDataWf = record {
  timestamp = omega arith;
  prev_hash = refl;
  data_hash = refl;
  data_uuid = refl;
  digest_id = omega arith;
  index = omega arith;
}

third_IsDataWf : IsDataWf third_block
unfolding Data.genesis Data.create Data.hash_block Data.preimage be_bytes
third_IsDataWf = record {
  timestamp = omega arith;
  prev_hash = refl;
  data_hash = refl;
  data_uuid = refl;
  digest_id = omega arith;
  index = omega arith;
}

last_IsDataWf : IsDataWf last_block
unfolding Data.genesis Data.create Data.hash_block Data.preimage be_bytes
last_IsDataWf = record {
  timestamp = omega arith;
  prev_hash = refl;
  data_hash = refl;
  data_uuid = refl;
  digest_id = omega arith;
  index = omega arith;
}

three-IsSized : IsSized genesis_block (second_block ∷ third_block ∷ [])
unfolding Data.genesis Data.create Data.hash_block Data.preimage be_bytes
three-IsSized = record {
  blocks = (second_IsDataWf, (third_IsDataWf, tt));
  hashes = (refl, (refl, (refl, tt)));
  len = omega arith;
}

other-IsSized : IsSized genesis_block (second_block ∷ last_block ∷ [])
unfolding Data.genesis Data.create Data.hash_block Data.preimage be_bytes
other-IsSized = record {
  blocks = (second_IsDataWf, (last_IsDataWf, tt));
  hashes = (refl, (refl, (refl, tt)));
  len = omega arith;
}

keepers_bind_example :
    ((genesis_block.hash ≡ genesis_block.hash)
      × ((second_block ∷ third_block ∷ []) ≡ (second_block ∷ last_block ∷ [])))
    ⊎ Collision sha
        (digest_of_both ∷ [])
        (digest_of_both ∷ [])
        (second_block ∷ third_block ∷ [])
        (second_block ∷ last_block ∷ [])
        (hashes genesis_block (second_block ∷ third_block ∷ []))
        (hashes genesis_block (second_block ∷ last_block ∷ []))
unfolding side_ref
keepers_bind_example =
    keepers_bind sha length-sha genesis_block genesis_block (second_block ∷ third_block ∷ [])
      (second_block ∷ last_block ∷ []) three-IsSized other-IsSized first_digest first_digest
      (digest_of_both ∷ []) (digest_of_both ∷ []) small_limit small_limit ((2, three_blocks) ∷ [])
      ((2, other_three) ∷ []) 2 small_limit small_limit (omega arith) (omega arith) three-Reached
      other-Reached refl (digest_of_both-IsDigestWf, tt) (digest_of_both-IsDigestWf, tt) refl refl
      refl
