-- ===== src/Block/Binding/OfVote.antt =====
-- The bytes that a `VoteBlock` is hashed from, read back: the vote by its first letter.
use history_chain.Base.{
  Bytes, Bool, true, false, ◌≡◌, ◌⊎◌, refl, sym, ◌∙◌, ◌++◌, length, append_inj, be_bytes_inj, arith,
  IsU32, IsU64,
}
use history_chain.Block.Binding.{Hashed, Clash, hash_binds, be_front}
use history_chain.Block.Vote
use history_chain.Block.Vote.{VoteBlock, vote_block, vote_bytes}

-- What the types `[u8; 32]`, `u64`, `usize`, `f32` and `u32` say of a block.
pub record IsVoteWf (b : VoteBlock) : Type 0 where
  pub prev_hash : length b.prev_hash ≡ 32
  pub timestamp : IsU64 b.timestamp
  pub expire_time : IsU64 b.expire_time
  pub block_hash : length b.block_hash ≡ 32
  pub voter : length b.voter ≡ 32
  pub suspected_block : length b.suspected_block ≡ 32
  pub result : IsU32 b.result
  pub index : IsU64 b.index
  pub digest_id : IsU32 b.digest_id

-- A vote in front, taken off both sides.
vote_front :
    (v v' : Bool) (ys ys' : Bytes)
    → (vote_bytes v ++ ys) ≡ (vote_bytes v' ++ ys')
    → (v ≡ v') × (ys ≡ ys')
vote_front true true ys ys' e =
    (refl, (append_inj (vote_bytes true) (vote_bytes true) ys ys' refl e).1)
vote_front true false ys ys' e = ground arith
vote_front false true ys ys' e = ground arith
vote_front false false ys ys' e =
    (refl, (append_inj (vote_bytes false) (vote_bytes false) ys ys' refl e).1)

vote_inj :
    (a b : VoteBlock)
    → IsVoteWf a
    → IsVoteWf b
    → Vote.preimage a ≡ Vote.preimage b
    → a.hash ≡ b.hash
    → a ≡ b
unfolding Vote.preimage
vote_inj a b wa wb e eh =
    let r1 = append_inj a.prev_hash b.prev_hash _ _ (wa.prev_hash ∙ sym wb.prev_hash) e in
    let r2 = be_front 8 a.timestamp b.timestamp _ _ wa.timestamp wb.timestamp (r1.1) in
    let r3 = be_front 8 a.expire_time b.expire_time _ _ wa.expire_time wb.expire_time (r2.1) in
    let r4 = append_inj a.block_hash b.block_hash _ _ (wa.block_hash ∙ sym wb.block_hash) (r3.1) in
    let r5 = append_inj a.voter b.voter _ _ (wa.voter ∙ sym wb.voter) (r4.1) in
    let r6 = vote_front a.vote b.vote _ _ (r5.1) in
    let r7 =
      append_inj a.suspected_block b.suspected_block _ _
        (wa.suspected_block ∙ sym wb.suspected_block) (r6.1) in
    let r8 = be_front 4 a.result b.result _ _ wa.result wb.result (r7.1) in
    let r9 = be_front 8 a.index b.index _ _ wa.index wb.index (r8.1) in
    let r10 = be_bytes_inj 4 a.digest_id b.digest_id wa.digest_id wb.digest_id (r9.1) in
    λ i. record {
      hash = eh i;
      prev_hash = r1.0 i;
      expire_time = r3.0 i;
      block_hash = r4.0 i;
      voter = r5.0 i;
      vote = r6.0 i;
      timestamp = r2.0 i;
      suspected_block = r7.0 i;
      result = r8.0 i;
      index = r9.0 i;
      digest_id = r10 i;
    }

vote_hashed : (sha256 : Bytes → Bytes) → Hashed sha256 (vote_block sha256)
unfolding Vote.hash_block
vote_hashed sha256 = record {
  IsWf = IsVoteWf;
  preimage = Vote.preimage;
  hash_block-eq = λ b. refl;
  preimage_inj = vote_inj;
}

-- Of two blocks whose fields fit their types and that carry the digest of their own fields, under
-- one hash, all fields agree, or SHA-256 has collided on the bytes that the two blocks feed it.
vote_hash_binds :
    (sha256 : Bytes → Bytes) (a b : VoteBlock)
    → IsVoteWf a
    → IsVoteWf b
    → a.hash ≡ Vote.hash_block sha256 a
    → b.hash ≡ Vote.hash_block sha256 b
    → a.hash ≡ b.hash
    → (a ≡ b) ⊎ Clash sha256 (Vote.preimage a) (Vote.preimage b)
unfolding vote_hashed Vote.preimage
vote_hash_binds sha256 a b = hash_binds (vote_hashed sha256) a b
