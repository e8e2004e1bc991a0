-- ===== src/Block/Verify.antt =====
-- What `Block::verify` accepts, as a predicate.
use history_chain.Base.{
  ℕ, Bytes, ◌≡◌, ◌↔◌, ◌≤◌, true, ok, arith, bytes_eq, bytes_eq→eq, bytes_eq_refl, add_u64,
}
use history_chain.Block.{Block, verify, hash_verify, time_verify}

module _ {B : Type 0} (k : Block B) where
  -- The block follows a block of that hash, in the time from `start` to `start + gap`.
  pub record Accepts (start gap : ℕ) (pre_hash : Bytes) (b : B) : Type 0 where
    pub hashed : k.hash b ≡ k.hash_block b
    pub not_before : start ≤ k.timestamp b
    pub not_after : k.timestamp b ≤ add_u64 start gap
    pub linked : k.prev_hash b ≡ pre_hash

  pub verify→Accepts :
      (b : B) (pre_hash : Bytes) (start gap : ℕ)
      → verify k b pre_hash start gap ≡ ok tt
      → Accepts start gap pre_hash b
  unfolding verify hash_verify time_verify
  verify→Accepts b pre_hash start gap e =
      ground (arith, bytes_eq→eq (k.hash b) (k.hash_block b), bytes_eq→eq (k.prev_hash b) pre_hash)

  pub Accepts→verify :
      (b : B) (pre_hash : Bytes) (start gap : ℕ)
      → Accepts start gap pre_hash b
      → verify k b pre_hash start gap ≡ ok tt
  unfolding verify hash_verify time_verify
  Accepts→verify b pre_hash start gap a =
      let same_hash : bytes_eq (k.hash b) (k.hash_block b) ≡ true =
        rw (← a.hashed) (bytes_eq_refl (k.hash b)) in
      let same_prev : bytes_eq (k.prev_hash b) pre_hash ≡ true =
        rw (a.linked) (bytes_eq_refl pre_hash) in
      ground arith

  -- `verify` succeeds exactly on the blocks that carry the digest of their own fields, are dated
  -- from the start to the start plus the gap, and name the given hash as the previous one.
  verify-Accepts :
      (b : B) (pre_hash : Bytes) (start gap : ℕ)
      → (verify k b pre_hash start gap ≡ ok tt) ↔ Accepts start gap pre_hash b
  verify-Accepts b pre_hash start gap =
      (verify→Accepts b pre_hash start gap, Accepts→verify b pre_hash start gap)
