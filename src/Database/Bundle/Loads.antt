-- ===== src/Database/Bundle/Loads.antt =====
-- A bundle that has been saved is loaded.
use history_chain.Base.{joined, Bytes, List, [], All, ◌≡◌, ◌∙◌, ap, some, ok, length, IsU32}
use history_chain.Block.{Block}
use history_chain.Chain.{BlockChain}
use history_chain.Database.Bundle.{Bundle, default_new, load_chains_from_bundle, loaded}
use history_chain.Database.Bundle.Saves.{IsSavable, save_chains, decode-save_chains}
use history_chain.Protocol.{Bincode}
use history_chain.Serializer.{decode_from_slice_with_header}
use history_chain.Serializer.ReadsAll.Short.{IsShort, decode_from_asyncread-short}

module _ {B : Type 0} (k : Block B) (m : Bincode (BlockChain B)) (enc : BlockChain B → Bytes) where
  -- Fewer than 2 ^ 32 chains with blocks, whose windows of time end before 2 ^ 64 and whose encodings
  -- are at most 131068 bytes, over a codec: after `save_to_file` of each into the empty file of a new
  -- bundle, `load_chains_from_bundle` of any bundle returns these chains, in order, from reads of
  -- the whole file, none empty, and each of fewer bytes than that bundle's buffer has and of at
  -- most 131072.
  pub load_chains_from_bundle-save_chains :
      (path : Bytes) (chains : List (BlockChain B)) (good : All (IsSavable k m enc) chains)
      (bundle : Bundle B) (reads : List Bytes)
      → IsU32 (length chains)
      → joined reads ≡ (save_chains k m enc chains (default_new path, [])).1
      → All (IsShort (length bundle.serializer.buffer)) reads
      → (load_chains_from_bundle m.decode_from_slice (ok tt) bundle reads).0 ≡ some (ok chains)
  unfolding load_chains_from_bundle loaded
  load_chains_from_bundle-save_chains path chains good bundle reads few whole short =
      decode_from_asyncread-short m.decode_from_slice bundle.serializer.buffer reads short
      ∙ (ap (decode_from_slice_with_header m.decode_from_slice) whole
          ∙ (decode-save_chains k m enc path chains good few).0)
