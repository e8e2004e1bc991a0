-- ===== src/Block/Binding/OfDigest.antt =====
-- The bytes that a `DigestBlock` is hashed from, read back.
use history_chain.Base.{
  Bytes, ◌≡◌, ◌⊎◌, refl, sym, ◌∙◌, length, append_inj, be_bytes_inj, IsU32, IsU64,
}
use history_chain.Block.Binding.{Hashed, Clash, hash_binds, be_front}
use history_chain.Block.Digest
use history_chain.Block.Digest.{DigestBlock, digest_block}

-- What the types `[u8; 32]`, `u64` and `u32` say of a block.
pub record IsDigestWf (b : DigestBlock) : Type 0 where
  pub timestamp : IsU64 b.timestamp
  pub prev_hash : length b.prev_hash ≡ 32
  pub merkle_root : length b.merkle_root ≡ 32
  pub len : IsU32 b.length
  pub digest_id : IsU32 b.digest_id

pub digest_inj :
    (a b : DigestBlock)
    → IsDigestWf a
    → IsDigestWf b
    → Digest.preimage a ≡ Digest.preimage b
    → a.hash ≡ b.hash
    → a ≡ b
unfolding Digest.preimage
digest_inj a b wa wb e eh =
    let r1 = be_front 8 a.timestamp b.timestamp _ _ wa.timestamp wb.timestamp e in
    let r2 = append_inj a.prev_hash b.prev_hash _ _ (wa.prev_hash ∙ sym wb.prev_hash) (r1.1) in
    let r3 =
      append_inj a.merkle_root b.merkle_root _ _ (wa.merkle_root ∙ sym wb.merkle_root) (r2.1) in
    let r4 = be_front 4 a.length b.length _ _ wa.len wb.len (r3.1) in
    let r5 = be_bytes_inj 4 a.digest_id b.digest_id wa.digest_id wb.digest_id (r4.1) in
    λ i. record {
      hash = eh i;
      digest_id = r5 i;
      timestamp = r1.0 i;
      prev_hash = r2.0 i;
      merkle_root = r3.0 i;
      length = r4.0 i;
    }

unfoldable pub digest_hashed : (sha256 : Bytes → Bytes) → Hashed sha256 (digest_block sha256)
unfolding Digest.hash_block
digest_hashed sha256 = record {
  IsWf = IsDigestWf;
  preimage = Digest.preimage;
  hash_block-eq = λ b. refl;
  preimage_inj = digest_inj;
}

-- Of two blocks whose fields fit their types and that carry the digest of their own fields, under
-- one hash, all fields agree, or SHA-256 has collided on the bytes that the two blocks feed it.
digest_hash_binds :
    (sha256 : Bytes → Bytes) (a b : DigestBlock)
    → IsDigestWf a
    → IsDigestWf b
    → a.hash ≡ Digest.hash_block sha256 a
    → b.hash ≡ Digest.hash_block sha256 b
    → a.hash ≡ b.hash
    → (a ≡ b) ⊎ Clash sha256 (Digest.preimage a) (Digest.preimage b)
unfolding digest_hashed Digest.preimage
digest_hash_binds sha256 a b = hash_binds (digest_hashed sha256) a b
