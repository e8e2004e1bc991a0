-- ===== src/Block/Binding/OfData.antt =====
-- The bytes that a `DataBlock` is hashed from, read back.
use history_chain.Base.{
  Bytes, ◌≡◌, ◌⊎◌, refl, sym, ◌∙◌, length, append_inj, be_bytes_inj, IsU32, IsU64,
}
use history_chain.Block.Binding.{Hashed, Clash, hash_binds, be_front}
use history_chain.Block.Data
use history_chain.Block.Data.{DataBlock, data_block}

-- What the types `[u8; 32]`, `[u8; 16]`, `u64` and `u32` say of a block.
pub record IsDataWf (b : DataBlock) : Type 0 where
  pub timestamp : IsU64 b.timestamp
  pub prev_hash : length b.prev_hash ≡ 32
  pub data_hash : length b.data_hash ≡ 32
  pub data_uuid : length b.data_uuid ≡ 16
  pub digest_id : IsU32 b.digest_id
  pub index : IsU32 b.index

pub data_inj :
    (a b : DataBlock)
    → IsDataWf a
    → IsDataWf b
    → Data.preimage a ≡ Data.preimage b
    → a.hash ≡ b.hash
    → a ≡ b
unfolding Data.preimage
data_inj a b wa wb e eh =
    let r1 = be_front 8 a.timestamp b.timestamp _ _ wa.timestamp wb.timestamp e in
    let r2 = append_inj a.prev_hash b.prev_hash _ _ (wa.prev_hash ∙ sym wb.prev_hash) (r1.1) in
    let r3 = append_inj a.data_hash b.data_hash _ _ (wa.data_hash ∙ sym wb.data_hash) (r2.1) in
    let r4 = append_inj a.data_uuid b.data_uuid _ _ (wa.data_uuid ∙ sym wb.data_uuid) (r3.1) in
    let r5 = be_front 4 a.digest_id b.digest_id _ _ wa.digest_id wb.digest_id (r4.1) in
    let r6 = be_bytes_inj 4 a.index b.index wa.index wb.index (r5.1) in
    λ i. record {
      hash = eh i;
      timestamp = r1.0 i;
      prev_hash = r2.0 i;
      data_hash = r3.0 i;
      data_uuid = r4.0 i;
      digest_id = r5.0 i;
      index = r6 i;
    }

unfoldable pub data_hashed : (sha256 : Bytes → Bytes) → Hashed sha256 (data_block sha256)
unfolding Data.hash_block
data_hashed sha256 = record {
  IsWf = IsDataWf;
  preimage = Data.preimage;
  hash_block-eq = λ b. refl;
  preimage_inj = data_inj;
}

-- Of two blocks whose fields fit their types and that carry the digest of their own fields, under
-- one hash, all fields agree, or SHA-256 has collided on the bytes that the two blocks feed it.
pub data_hash_binds :
    (sha256 : Bytes → Bytes) (a b : DataBlock)
    → IsDataWf a
    → IsDataWf b
    → a.hash ≡ Data.hash_block sha256 a
    → b.hash ≡ Data.hash_block sha256 b
    → a.hash ≡ b.hash
    → (a ≡ b) ⊎ Clash sha256 (Data.preimage a) (Data.preimage b)
unfolding data_hashed Data.preimage
data_hash_binds sha256 a b = hash_binds (data_hashed sha256) a b
